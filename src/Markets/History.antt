-- ===== src/Markets/History.antt =====
-- The history of a market under calls of market.go's UpdateMarketStatus.
use truth_market.Base.{
  ℕ, zero, suc, ◌+◌, ◌≤◌, length, ◌≡◌, refl, sym, ap, ◌∙◌, Bool, true, false, Option, none, some,
  List, [], ◌∷◌, ◌==◌, if◌then◌else◌, arith, Bool-cases, inl, inr, ==→eq, ◌⊎◌, subst,
}
use truth_market.Base.Maps.{lookup, insert, lookup-insert}
use truth_market.Domain.{Ident, MarketStatus, Market}
use truth_market.Store.{State}
use truth_market.Markets.{is_valid_transition, update_market_status}
use truth_market.Markets.Lifecycle.{
  phase, Reaches, stays, moves, Reaches-phase, row_written, no_row,
}

-- The rows of the markets are under their own identifiers.
abbrev pub AreKeyed : List (Ident × Market) → Type 0
AreKeyed rows = (i : Ident) (m : Market) → lookup i rows ≡ some m → m.id ≡ i

-- The market is the same but for its status, to which at most so many valid transitions lead.
abbrev pub Follows : ℕ → Market → Market → Type 0
Follows b m m' =
    (m' ≡ record m { status = m'.status }) × ((n : ℕ) × (Reaches m.status n m'.status × (n ≤ b)))

Reaches-trans :
    (a b c : MarketStatus) (n k : ℕ)
    → Reaches a n b
    → Reaches b k c
    → (j : ℕ) × (Reaches a j c × (j ≡ k + n))
Reaches-trans a b c n zero r stays = (n, (r, omega arith))
Reaches-trans a b c n (suc k) r (moves {b = d} q h) =
    let (j, (p, e)) = Reaches-trans a b d n k r q in (suc j, (moves {b = d} p h, omega (arith, e)))

Follows-trans : (b : ℕ) (l m k : Market) → Follows 1 l m → Follows b m k → Follows (suc b) l k
Follows-trans b l m k (e, (n, (r, u))) (e', (n', (r', u'))) =
    let (j, (p, q)) = Reaches-trans l.status m.status k.status n n' r r' in
    (e' ∙ ap (λ (x : Market). record x { status = k.status }) e, (j, (p, omega (arith, q, u, u'))))

-- The rows stay keyed, and hold a market that follows the given one.
abbrev Holds : ℕ → Ident → Market → List (Ident × Market) → Type 0
Holds b i m rows = AreKeyed rows × ((m' : Market) × ((lookup i rows ≡ some m') × Follows b m m'))

Holds-same :
    (b : ℕ) (i : Ident) (m : Market) (rows : List (Ident × Market))
    → AreKeyed rows
    → lookup i rows ≡ some m
    → Holds b i m rows
Holds-same b i m rows v e = (v, (m, (e, (refl, (0, (stays, omega arith))))))

if_row :
    (b : Bool) (w x : Market) (o : Option Market)
    → (if b then some w else o) ≡ some x
    → ((b ≡ true) × (x ≡ w)) ⊎ (o ≡ some x)
if_row true w x o e = inl (refl, cc)
if_row false w x o e = inr e

insert-AreKeyed :
    (m : Market) (rows : List (Ident × Market)) → AreKeyed rows → AreKeyed (insert m.id m rows)
insert-AreKeyed m rows v i x e =
    elim (if_row (m.id == i) m x (lookup i rows) (sym (lookup-insert i m.id m rows) ∙ e)) [
      | inl (q, f) ↦ ap (λ (y : Market). y.id) f ∙ ==→eq m.id i q
      | inr f ↦ v i x f
    ]

moved :
    (m x : Market) (st : MarketStatus)
    → m ≡ x
    → is_valid_transition x.status st ≡ true
    → Follows 1 m (record x { status = st })
moved m x st e h = (
  ap (λ (y : Market). record y { status = st }) (sym e),
  (
    1,
    (
      moves {b = m.status} stays (ap (λ (y : Market). is_valid_transition y.status st) e ∙ h),
      omega arith,
    ),
  ),
)

insert-Holds :
    (i : Ident) (m x : Market) (st : MarketStatus) (rows : List (Ident × Market))
    → AreKeyed rows
    → lookup i rows ≡ some m
    → lookup x.id rows ≡ some x
    → is_valid_transition x.status st ≡ true
    → Holds 1 i m (insert x.id (record x { status = st }) rows)
insert-Holds i m x st rows v e f h = (
  insert-AreKeyed (record x { status = st }) rows v,
  elim (Bool-cases (x.id == i)) [
    | inl q ↦ (
      record x { status = st },
      (
        lookup-insert i x.id (record x { status = st }) rows ∙ rw q refl,
        moved m x st (same (sym e ∙ (ap (λ j. lookup j rows) (sym (==→eq x.id i q)) ∙ f))) h,
      ),
    )
    | inr q ↦ (
      m,
      (
        lookup-insert i x.id (record x { status = st }) rows ∙ (rw q e),
        (refl, (0, (stays, omega arith))),
      ),
    )
  ],
)
  where
    same : {y z : Market} → some y ≡ some z → y ≡ z
    same q = cc

written-Holds :
    (i : Ident) (m x : Market) (st : MarketStatus) (s : State)
    → AreKeyed s.db.markets
    → lookup i s.db.markets ≡ some m
    → lookup x.id s.db.markets ≡ some x
    → Holds 1 i m (update_market_status x.id st s).1.db.markets
written-Holds i m x st s v e f = elim (Bool-cases (is_valid_transition x.status st)) [
  | inl h ↦ rw (row_written st x s f, h) (insert-Holds i m x st s.db.markets v e f h)
  | inr h ↦ rw (row_written st x s f, h) (Holds-same 1 i m s.db.markets v e)
]

update_market_status-Holds :
    (i j : Ident) (m : Market) (st : MarketStatus) (s : State)
    → AreKeyed s.db.markets
    → lookup i s.db.markets ≡ some m
    → Holds 1 i m (update_market_status j st s).1.db.markets
update_market_status-Holds i j m st s v e = by_row (lookup j s.db.markets) refl
  where
    by_row :
        (o : Option Market)
        → lookup j s.db.markets ≡ o
        → Holds 1 i m (update_market_status j st s).1.db.markets
    by_row none q = rw (no_row j st s q) (Holds-same 1 i m s.db.markets v e)
    by_row (some x) q =
        subst (λ k. Holds 1 i m (update_market_status k st s).1.db.markets) (v j x q)
          (written-Holds i m x st s v e (ap (λ k. lookup k s.db.markets) (v j x q) ∙ q))

-- Calls of UpdateMarketStatus one after another, on any markets.
abbrev pub update_all : List (Ident × MarketStatus) → State → State
update_all [] s = s
update_all ((j, st) ∷ calls) s = update_all calls (update_market_status j st s).1

update_all-Holds :
    (i : Ident) (m : Market) (calls : List (Ident × MarketStatus)) (s : State)
    → AreKeyed s.db.markets
    → lookup i s.db.markets ≡ some m
    → Holds (length calls) i m (update_all calls s).db.markets
update_all-Holds i m [] s v e = Holds-same 0 i m s.db.markets v e
update_all-Holds i m ((j, st) ∷ calls) s v e =
    let (v', (m', (e', f))) = update_market_status-Holds i j m st s v e in
    let (v'', (k, (e'', g))) = update_all-Holds i m' calls (update_market_status j st s).1 v' e' in
    (v'', (k, (e'', Follows-trans (length calls) m m' k f g)))

-- Whatever calls of UpdateMarketStatus are made, on this market and on others, a market whose row is
-- there, all rows being under their own identifiers, is afterwards the same but for its status, and
-- valid transitions lead to that status, as many as the phases that it has moved on by, and no more
-- than there were calls.
pub update_market_status-Follows :
    (i : Ident) (m : Market) (calls : List (Ident × MarketStatus)) (s : State)
    → AreKeyed s.db.markets
    → lookup i s.db.markets ≡ some m
    → (m' : Market) × (lookup i (update_all calls s).db.markets ≡ some m')
      × (m' ≡ record m { status = m'.status })
      × ((n : ℕ) × (Reaches m.status n m'.status
            × ((n ≤ length calls) × (phase m'.status ≡ n + phase m.status))))
update_market_status-Follows i m calls s v e =
    let (_, (m', (e', (f, (n, (r, u)))))) = update_all-Holds i m calls s v e in
    (m', e', f, (n, (r, (u, Reaches-phase m.status m'.status n r))))
