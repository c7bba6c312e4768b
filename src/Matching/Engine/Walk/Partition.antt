-- ===== src/Matching/Engine/Walk/Partition.antt =====
-- The walk of matchOrder splits the opposite side: what is traded, what is left and what is skipped.
use truth_market.Base.{
  ℕ, suc, ◌≡◌, refl, sym, subst, ◌⊎◌, true, false, Option, none, some, List, [], ◌∷◌, arith, ◌==◌,
  All, inl, inr,
}
use truth_market.Base.Int.{ℤ, ◌+ℤ◌, ◌≤ℤ◌, int_laws}
use truth_market.Domain.{Ident, zero_dec, Order, remaining_qty}
use truth_market.Matching.Queue.{first, has_id}
use truth_market.Matching.Queue.Laws.{Distinct}
use truth_market.Matching.Engine.{apart, is_done, trade_qty, fill_by, filled_maker}
use truth_market.Matching.Engine.Amounts.{trade_fills, trade_qty-le_maker}
use truth_market.Matching.Engine.Priority.Clauses.{fill_cases, fill-nil}
use truth_market.Matching.Engine.Priority.{Filled, fill}
use truth_market.Matching.Engine.Walk.{total_qty, total_remaining}

-- Nothing more can be traded: the taker is filled, or the best order left does not cross.
abbrev pub Uncrossed : Order → Option Order → Type 0
Uncrossed t none = Unit
Uncrossed t (some o) = apart t.side t.price o.price ≡ true

abbrev pub IsComplete : Order → Filled → Type 0
IsComplete t r = (is_done r.taker ≡ true) ⊎ Uncrossed t (first r.left)

pub fill-IsComplete :
    (uuid : ℕ → Ident) (n : ℕ) (t : Order) (os : List Order) → IsComplete t (fill uuid n t os)
fill-IsComplete uuid n t [] = subst (IsComplete t) (sym (fill-nil uuid n t)) (inr tt)
fill-IsComplete uuid n t (o ∷ os) =
    fill_cases (IsComplete t) uuid n t o os (λ e. inl e) (λ e. inr e)
      (λ e c. fill-IsComplete uuid n t os)
      (λ l c u d. fill-IsComplete uuid (suc n) (fill_by (trade_qty t o) t) os)
      (λ l c u d. inl (trade_fills t o d))

-- What the side offers is traded, left or skipped.
abbrev pub Conserves : List Order → Filled → Type 0
Conserves os r =
    total_remaining os ≡ total_qty r.trades +ℤ total_remaining r.left +ℤ total_remaining r.skipped

filled_remaining :
    (t o : Order) → is_done (filled_maker t o) ≡ true → remaining_qty o ≡ trade_qty t o
filled_remaining t o d = omega (int_laws, trade_qty-le_maker t o, le_zero d)
  where
    le_zero :
        is_done (filled_maker t o) ≡ true → remaining_qty (fill_by (trade_qty t o) o) ≤ℤ zero_dec
    le_zero d = ground arith

pub fill-Conserves :
    (uuid : ℕ → Ident) (n : ℕ) (t : Order) (os : List Order) → Conserves os (fill uuid n t os)
fill-Conserves uuid n t [] = subst (Conserves []) (sym (fill-nil uuid n t)) (omega int_laws)
fill-Conserves uuid n t (o ∷ os) =
    fill_cases (Conserves (o ∷ os)) uuid n t o os (λ e. omega int_laws) (λ e. omega int_laws)
      (λ e c. more_skipped (remaining_qty o) _ _ _ _ (fill-Conserves uuid n t os))
      (λ l c u d.
        more_traded (remaining_qty o) _ _ _ _ _ (filled_remaining t o d)
          (fill-Conserves uuid (suc n) (fill_by (trade_qty t o) t) os))
      (λ l c u d. omega int_laws)
  where
    more_skipped : (x a q l s : ℤ) → a ≡ q +ℤ l +ℤ s → x +ℤ a ≡ q +ℤ l +ℤ (x +ℤ s)
    more_skipped x a q l s h = rw h (omega int_laws)

    more_traded : (x y a q l s : ℤ) → x ≡ y → a ≡ q +ℤ l +ℤ s → x +ℤ a ≡ y +ℤ q +ℤ l +ℤ s
    more_traded x y a q l s e h = rw (e, h) (omega int_laws)

-- What is skipped are the taker's own orders that cross, unchanged.
abbrev pub SkipsOwn : Order → Filled → Type 0
SkipsOwn t r =
    All (λ o. ((t.user_id == o.user_id) ≡ true) × (apart t.side t.price o.price ≡ false)) r.skipped

pub fill-SkipsOwn :
    (uuid : ℕ → Ident) (n : ℕ) (t : Order) (os : List Order) → SkipsOwn t (fill uuid n t os)
fill-SkipsOwn uuid n t [] = subst (SkipsOwn t) (sym (fill-nil uuid n t)) tt
fill-SkipsOwn uuid n t (o ∷ os) =
    fill_cases (SkipsOwn t) uuid n t o os (λ e. tt) (λ e. tt)
      (λ e c. ((e, c), fill-SkipsOwn uuid n t os))
      (λ l c u d. fill-SkipsOwn uuid (suc n) (fill_by (trade_qty t o) t) os) (λ l c u d. tt)

-- The skipped orders keep what held of all the orders of the side.
abbrev AllSkipped : (Order → Type 0) → Filled → Type 0
AllSkipped P r = All P r.skipped

pub fill-All_skipped :
    (P : Order → Type 0) (uuid : ℕ → Ident) (n : ℕ) (t : Order) (os : List Order)
    → All P os
    → All P (fill uuid n t os).skipped
fill-All_skipped P uuid n t [] h = subst (AllSkipped P) (sym (fill-nil uuid n t)) tt
fill-All_skipped P uuid n t (o ∷ os) h =
    fill_cases (AllSkipped P) uuid n t o os (λ e. tt) (λ e. tt)
      (λ e c. (h.0, fill-All_skipped P uuid n t os h.1))
      (λ l c u d. fill-All_skipped P uuid (suc n) (fill_by (trade_qty t o) t) os h.1)
      (λ l c u d. tt)

-- No identifier is made up.
abbrev Without : Ident → Filled → Type 0
Without i r = (has_id i r.left ≡ false) × (has_id i r.skipped ≡ false)

has_id-cons_false :
    (i : Ident) (o : Order) (os : List Order)
    → has_id i (o ∷ os) ≡ false
    → ((o.id == i) ≡ false) × (has_id i os ≡ false)
unfolding has_id
has_id-cons_false i o os h = ground arith

has_id-cons :
    (i : Ident) (o : Order) (os : List Order)
    → (o.id == i) ≡ false
    → has_id i os ≡ false
    → has_id i (o ∷ os) ≡ false
unfolding has_id
has_id-cons i o os e h = ground arith

has_id-nil : (i : Ident) → has_id i [] ≡ false
unfolding has_id
has_id-nil i = refl

pub fill-Without :
    (i : Ident) (uuid : ℕ → Ident) (n : ℕ) (t : Order) (os : List Order)
    → has_id i os ≡ false
    → Without i (fill uuid n t os)
fill-Without i uuid n t [] h = subst (Without i) (sym (fill-nil uuid n t)) (h, h)
fill-Without i uuid n t (o ∷ os) h =
    let (e, k) = has_id-cons_false i o os h in
    fill_cases (Without i) uuid n t o os (λ d. (h, has_id-nil i)) (λ a. (h, has_id-nil i))
      (λ u c.
        let r = fill-Without i uuid n t os k in
        (r.0, has_id-cons i o (fill uuid n t os).skipped e r.1))
      (λ l c u d. fill-Without i uuid (suc n) (fill_by (trade_qty t o) t) os k)
      (λ l c u d. (has_id-cons i (filled_maker t o) os e k, has_id-nil i))

-- No identifier is skipped twice, or both skipped and left.
abbrev pub SkipsApart : Filled → Type 0
SkipsApart r = Distinct r.skipped × All (λ o. has_id o.id r.left ≡ false) r.skipped

pub fill-SkipsApart :
    (uuid : ℕ → Ident) (n : ℕ) (t : Order) (os : List Order)
    → Distinct os
    → SkipsApart (fill uuid n t os)
fill-SkipsApart uuid n t [] d = subst SkipsApart (sym (fill-nil uuid n t)) (tt, tt)
fill-SkipsApart uuid n t (o ∷ os) d =
    fill_cases SkipsApart uuid n t o os (λ e. (tt, tt)) (λ e. (tt, tt))
      (λ u c.
        let r = fill-SkipsApart uuid n t os d.1 in
        let w = fill-Without o.id uuid n t os d.0 in ((w.1, r.0), (w.0, r.1)))
      (λ l c u e. fill-SkipsApart uuid (suc n) (fill_by (trade_qty t o) t) os d.1)
      (λ l c u e. (tt, tt))
