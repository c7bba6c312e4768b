-- ===== src/Store/Rules.antt =====
-- How the changes of the users' money add up over the calls of a service.
use truth_market.Base.{
  ◌≡◌, refl, sym, ap, subst, ◌∙◌, Bool, true, false, some, List, Result, ok, err,
}
use truth_market.Base.Int.{pos, ◌+ℤ◌, ◌-ℤ◌, int_laws}
use truth_market.Base.Maps.{lookup}
use truth_market.Domain.{Ident, Money, User}
use truth_market.Errors.{Error}
use truth_market.Store.{
  Db, State, Action, ◌>>=◌, ◌>>◌, raise_if, with_tx, with_tx_from, get_user, update_balance,
}
use truth_market.Store.Cash.{
  Ensures, Quiet, Shifted, Shifts, add_assoc, bind-Ensures, cash, get_user-Ensures, total_worth,
  update_balance-Shifted, worth,
}

shift_add : (a b c d e : Money) → b ≡ a +ℤ d → c ≡ b +ℤ e → c ≡ a +ℤ (d +ℤ e)
shift_add a b c d e p q = q ∙ ap (λ x. x +ℤ e) p ∙ sym (add_assoc a d e)

pub add_zero : (a : Money) → a ≡ a +ℤ pos 0
add_zero a = omega int_laws

zero_add : (a : Money) → pos 0 +ℤ a ≡ a
zero_add a = omega int_laws

pub Ensures-mono :
    {A : Type 0} (P Q : A → State → Type 0) (r : Result Error A × State)
    → Ensures P r
    → ((a : A) (s : State) → P a s → Q a s)
    → Ensures Q r
Ensures-mono P Q (ok a, s) h f = f a s h
Ensures-mono P Q (err e, s) h f = tt

module _ {A B : Type 0} where
  pub both-Quiet :
      (m : Action A) (k : A → Action B) → Quiet m → ((a : A) → Quiet (k a)) → Quiet (m >>= k)
  unfolding Quiet
  both-Quiet m k q f s =
      bind-Ensures (λ _ s'. s'.db.users ≡ s.db.users) (λ _ s'. s'.db.users ≡ s.db.users) m k s (q s)
        (λ a s' e.
          Ensures-mono (λ _ t. t.db.users ≡ s'.db.users) (λ _ t. t.db.users ≡ s.db.users) (k a s')
            (f a s') (λ b t h. h ∙ e))

  pub Quiet-then :
      (d : Money) (m : Action A) (k : A → Action B)
      → Quiet m
      → ((a : A) → Shifts d (k a))
      → Shifts d (m >>= k)
  unfolding Quiet Shifts
  Quiet-then d m k q f s =
      bind-Ensures (λ _ s'. s'.db.users ≡ s.db.users) (Shifted d s) m k s (q s)
        (λ a s' e.
          Ensures-mono (Shifted d s') (Shifted d s) (k a s') (f a s')
            (λ b t h. h ∙ ap (λ us. total_worth us +ℤ d) e))

  pub shift_then :
      (d e : Money) (m : Action A) (k : A → Action B)
      → Shifts d m
      → ((a : A) → Shifts e (k a))
      → Shifts (d +ℤ e) (m >>= k)
  unfolding Shifts
  shift_then d e m k p f s = bind-Ensures (Shifted d s) (Shifted (d +ℤ e) s) m k s (p s) (λ a s' g.
      Ensures-mono (Shifted e s') (Shifted (d +ℤ e) s) (k a s') (f a s')
        (λ b t h. shift_add (cash s) (cash s') (cash t) d e g h))

  -- A call that keeps the sum, and then another.
  pub level_then :
      (d : Money) (m : Action A) (k : A → Action B)
      → Shifts (pos 0) m
      → ((a : A) → Shifts d (k a))
      → Shifts d (m >>= k)
  level_then d m k p f = subst (λ x. Shifts x (m >>= k)) (zero_add d) (shift_then (pos 0) d m k p f)

pub Quiet-Shifts : {A : Type 0} (m : Action A) → Quiet m → Shifts (pos 0) m
unfolding Quiet Shifts
Quiet-Shifts m q s =
    Ensures-mono (λ _ s'. s'.db.users ≡ s.db.users) (Shifted (pos 0) s) (m s) (q s)
      (λ a t e. ap total_worth e ∙ add_zero (cash s))

-- A call after a read of a user runs in the same state and knows the row.
pub with_user :
    {B : Type 0} (Q : B → State → Type 0) (i : Ident) (k : User → Action B) (s : State)
    → ((u : User) → lookup i s.db.users ≡ some u → Ensures Q (k u s))
    → Ensures Q ((get_user i >>= k) s)
with_user Q i k s f =
    bind-Ensures (λ u s'. (s' ≡ s) × (lookup i s.db.users ≡ some u)) Q (get_user i) k s
      (get_user-Ensures i s) (λ u s' h. subst (λ t. Ensures Q (k u t)) (sym h.0) (f u h.1))

guarded_update :
    (t : Bool) (x : Error) (i : Ident) (b l : Money) (u : User) (d : Money) (s : State)
    → lookup i s.db.users ≡ some u
    → b +ℤ l -ℤ worth u ≡ d
    → Ensures (Shifted d s) ((raise_if t x >> update_balance i b l) s)
unfolding ◌>>=◌ raise_if
guarded_update true x i b l u d s e h = tt
guarded_update false x i b l u d s e h =
    subst (λ (m : Money). Ensures (Shifted m s) (update_balance i b l s)) h
      (update_balance-Shifted i b l u s e)

-- Reading a user and then, if a test passes, writing the balances.
pub move_funds :
    (i : Ident) (c : User → Bool) (x : Error) (b l : User → Money) (d : Money)
    → ((u : User) → b u +ℤ l u -ℤ worth u ≡ d)
    → Shifts d (do u ← get_user i; raise_if (c u) x; update_balance i (b u) (l u))
unfolding Shifts
move_funds i c x b l d h s =
    with_user (Shifted d s) i (λ u. raise_if (c u) x >> update_balance i (b u) (l u)) s
      (λ u e. guarded_update (c u) x i (b u) (l u) u d s e (h u))

-- The same without a test.
pub set_funds :
    (i : Ident) (b l : User → Money) (d : Money)
    → ((u : User) → b u +ℤ l u -ℤ worth u ≡ d)
    → Shifts d (do u ← get_user i; update_balance i (b u) (l u))
unfolding Shifts
set_funds i b l d h s =
    with_user (Shifted d s) i (λ u. update_balance i (b u) (l u)) s
      (λ u e.
        subst (λ (m : Money). Ensures (Shifted m s) (update_balance i (b u) (l u) s)) (h u)
          (update_balance-Shifted i (b u) (l u) u s e))

-- A transaction that succeeds has done what its body does.
pub with_tx-Shifts :
    {A : Type 0} (undo : Db → Db → Db) (d : Money) (m : Action A)
    → Shifts d m
    → Shifts d (with_tx undo m)
unfolding with_tx Shifts
with_tx-Shifts {A = A} undo d m h s = committed (m s) (h s)
  where
    committed :
        (r : Result Error A × State)
        → Ensures (Shifted d s) r
        → Ensures (Shifted d s) (with_tx_from undo s.db r)
    committed (ok a, t) g = g
    committed (err e, t) g = tt

-- The users are as they were where a row of one was read.
abbrev pub Unchanged : {A : Type 0} → List (Ident × User) → A → State → Type 0
Unchanged us a s = s.db.users ≡ us

-- A change of the sum from any state that has the users as they were.
abbrev pub Pays : {A : Type 0} → List (Ident × User) → Money → Action A → Type 0
Pays us d m = (s : State) → s.db.users ≡ us → Ensures (Shifted d s) (m s)

pub Quiet-Pays :
    {A B : Type 0} (us : List (Ident × User)) (d : Money) (m : Action A) (k : A → Action B)
    → Quiet m
    → ((a : A) → Pays us d (k a))
    → Pays us d (m >>= k)
unfolding Quiet
Quiet-Pays us d m k q f s e =
    bind-Ensures (Unchanged s.db.users) (Shifted d s) m k s (q s) (λ a t h.
      Ensures-mono (Shifted d t) (Shifted d s) (k a t) (f a t (h ∙ e))
        (λ b r g. g ∙ ap (λ vs. total_worth vs +ℤ d) h))

-- Writing the balances of a user who was read before, and then calls that change no user.
pub write-Pays :
    {B : Type 0} (us : List (Ident × User)) (i : Ident) (u : User) (b l d : Money) (k : Action B)
    → lookup i us ≡ some u
    → b +ℤ l -ℤ worth u ≡ d
    → Quiet k
    → Pays us d (update_balance i b l >> k)
unfolding Quiet
write-Pays us i u b l d k e h q s same =
    bind-Ensures (Shifted (b +ℤ l -ℤ worth u) s) (Shifted d s) (update_balance i b l) (λ _. k) s
      (update_balance-Shifted i b l u s (ap (lookup i) same ∙ e))
      (λ a t g.
        Ensures-mono (Unchanged t.db.users) (Shifted d s) (k t) (q t)
          (λ x r same'. ap total_worth same' ∙ g ∙ ap (λ y. cash s +ℤ y) h))

-- A read of a user, and then calls that change the sum whatever was read.
pub read-Pays :
    {B : Type 0} (i : Ident) (d : Money) (k : User → Action B)
    → ((us : List (Ident × User)) (u : User) → lookup i us ≡ some u → Pays us d (k u))
    → Shifts d (get_user i >>= k)
unfolding Shifts
read-Pays i d k f s = with_user (Shifted d s) i k s (λ u e. f s.db.users u e s refl)
