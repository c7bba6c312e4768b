-- ===== src/Store/Cash.antt =====
-- What a call leaves of the money of all users, available and locked.
use truth_market.Base.{
  ◌≡◌, refl, ap, ◌∙◌, Bool, true, false, some, List, [], ◌∷◌, ◌==◌, if◌then◌else◌, Result, ok, err,
  Option-cases, inl, inr,
}
use truth_market.Base.Int.{pos, ◌+ℤ◌, ◌-ℤ◌, int_laws}
use truth_market.Base.Maps.{lookup, insert}
use truth_market.Domain.{Ident, Money, User}
use truth_market.Errors.{Error}
use truth_market.Store.{
  State, Action, and_then, ◌>>=◌, or_raise, modify, get_user, update_balance, set_balance,
}

-- What holds of the value and the state of a call that succeeds.
abbrev pub Ensures : {A : Type 0} → (A → State → Type 0) → Result Error A × State → Type 0
Ensures Q (ok a, s) = Q a s
Ensures Q (err e, s) = Unit

module _ {A B : Type 0} where
  and_then-Ensures :
      (P : A → State → Type 0) (Q : B → State → Type 0) (k : A → Action B)
      (r : Result Error A × State)
      → Ensures P r
      → ((a : A) (s : State) → P a s → Ensures Q (k a s))
      → Ensures Q (and_then k r)
  and_then-Ensures P Q k (ok a, s) h f = f a s h
  and_then-Ensures P Q k (err e, s) h f = tt

  pub bind-Ensures :
      (P : A → State → Type 0) (Q : B → State → Type 0) (m : Action A) (k : A → Action B)
      (s : State)
      → Ensures P (m s)
      → ((a : A) (s' : State) → P a s' → Ensures Q (k a s'))
      → Ensures Q ((m >>= k) s)
  unfolding ◌>>=◌
  bind-Ensures P Q m k s h f = and_then-Ensures P Q k (m s) h f

abbrev pub worth : User → Money
worth u = u.balance +ℤ u.locked_balance

abbrev add_worth : Ident × User → Money → Money
add_worth (i, u) rest = worth u +ℤ rest

unfoldable pub total_worth : List (Ident × User) → Money
total_worth [] = pos 0
total_worth (p ∷ ps) = worth p.1 +ℤ total_worth ps

-- All the money, available or locked, of all users.
abbrev pub cash : State → Money
cash s = total_worth s.db.users

abbrev pub Shifted : {A : Type 0} → Money → State → A → State → Type 0
Shifted d s a s' = cash s' ≡ cash s +ℤ d

-- The call changes no user.
unfoldable pub Quiet : {A : Type 0} → Action A → Type 0
Quiet m = (s : State) → Ensures (λ _ s'. s'.db.users ≡ s.db.users) (m s)

-- The call, if it succeeds, changes the money of all users by an amount.
unfoldable pub Shifts : {A : Type 0} → Money → Action A → Type 0
Shifts d m = (s : State) → Ensures (Shifted d s) (m s)

some_inj : {a b : User} → some a ≡ some b → a ≡ b
some_inj e = cc

swap_worth : (a b c t : Money) → a ≡ b → c +ℤ t ≡ a +ℤ t +ℤ (c -ℤ b)
swap_worth a b c t e = rw e (omega int_laws)

pub add_assoc : (a b c : Money) → a +ℤ (b +ℤ c) ≡ a +ℤ b +ℤ c
add_assoc a b c = omega int_laws

insert_step :
    (b : Bool) (i : Ident) (u v : User) (p : Ident × User) (us : List (Ident × User))
    → (if b then some p.1 else lookup i us) ≡ some u
    → (lookup i us ≡ some u → total_worth (insert i v us) ≡ total_worth us +ℤ (worth v -ℤ worth u))
    → total_worth (if b then (i, v) ∷ us else p ∷ insert i v us)
      ≡ total_worth (p ∷ us) +ℤ (worth v -ℤ worth u)
unfolding total_worth
insert_step true i u v p us e ih =
    swap_worth (worth p.1) (worth u) (worth v) (total_worth us) (ap worth (some_inj e))
insert_step false i u v p us e ih =
    ap (λ (x : Money). worth p.1 +ℤ x) (ih e)
    ∙ add_assoc (worth p.1) (total_worth us) (worth v -ℤ worth u)

pub total_worth-insert :
    (i : Ident) (u v : User) (us : List (Ident × User))
    → lookup i us ≡ some u
    → total_worth (insert i v us) ≡ total_worth us +ℤ (worth v -ℤ worth u)
total_worth-insert i u v [] e = absurd cc
total_worth-insert i u v (p ∷ us) e =
    insert_step (p.0 == i) i u v p us e (total_worth-insert i u v us)

-- What writing a user's balances does to the sum, where the user was last read.
pub update_balance-Shifted :
    (i : Ident) (b l : Money) (u : User) (s : State)
    → lookup i s.db.users ≡ some u
    → Ensures (Shifted (b +ℤ l -ℤ worth u) s) (update_balance i b l s)
unfolding update_balance ◌>>=◌ modify get_user or_raise
update_balance-Shifted i b l u s e = rw e (total_worth-insert i u (set_balance b l u) s.db.users e)

pub get_user-Ensures :
    (i : Ident) (s : State)
    → Ensures (λ u s'. (s' ≡ s) × (lookup i s.db.users ≡ some u)) (get_user i s)
unfolding get_user or_raise
get_user-Ensures i s = elim (Option-cases (lookup i s.db.users)) [
  | inl e ↦ rw e tt
  | inr (u, e) ↦ rw e (refl, refl)
]
