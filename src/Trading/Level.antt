-- ===== src/Trading/Level.antt =====
-- The money of all users under the cancelling calls, however they end. CancelOrder
-- and CancelAllOrdersByMarket run outside a transaction, so what they wrote before an error stays written.
use truth_market.Base.{
  ℕ, suc, ◌≡◌, refl, sym, ap, ◌∙◌, Bool, true, false, Option, none, some, List, [], ◌∷◌, Result, ok,
  err, Option-cases, inl, inr,
}
use truth_market.Base.Int.{pos, ◌+ℤ◌, ◌-ℤ◌, int_laws}
use truth_market.Base.Maps.{lookup}
use truth_market.Domain.{Ident, Quantity, Money, OrderSide, buy, sell, OrderStatus, Order, Position}
use truth_market.Errors.{Error}
use truth_market.Store.{
  Db, State, Action, and_then, ◌>>=◌, pure, or_raise, gets, modify, raise_if, get_user,
  update_balance, set_balance, get_order, update_status, upsert, find_position, get_position,
  list_open_by_market,
}
use truth_market.Store.Cash.{cash, total_worth, total_worth-insert}
use truth_market.Store.Rules.{add_zero}
use truth_market.Trading.Cancels.{
  engine_cancel, unfilled_cost, release_funds, release_if_buy, service_cancel_order,
  restore_position, release_order, cancel_one, cancel_each, cancel_all_orders_by_market,
}

-- However the call ends, the money of all users is what it was.
unfoldable Level : {A : Type 0} → Action A → Type 0
Level m = (s : State) → cash (m s).1 ≡ cash s

module _ {A B : Type 0} where
  level_and_then :
      (k : A → Action B) (r : Result Error A × State) (c : Money)
      → cash r.1 ≡ c
      → ((a : A) (s : State) → cash (k a s).1 ≡ cash s)
      → cash (and_then k r).1 ≡ c
  level_and_then k (ok a, t) c h f = f a t ∙ h
  level_and_then k (err e, t) c h f = h

  both-Level :
      (m : Action A) (k : A → Action B) → Level m → ((a : A) → Level (k a)) → Level (m >>= k)
  unfolding Level ◌>>=◌
  both-Level m k h f s = level_and_then k (m s) (cash s) (h s) (λ a t. f a t)

pure-Level : {A : Type 0} (a : A) → Level (pure a)
unfolding Level pure
pure-Level a s = refl

gets-Level : {A : Type 0} (f : Db → A) → Level (gets f)
unfolding Level gets
gets-Level f s = refl

modify-Level : (f : Db → Db) → ((db : Db) → (f db).users ≡ db.users) → Level (modify f)
unfolding Level modify
modify-Level f h s = ap total_worth (h s.db)

raise_if-Level : (b : Bool) (e : Error) → Level (raise_if b e)
unfolding Level raise_if
raise_if-Level true e s = refl
raise_if-Level false e s = refl

or_raise_level :
    {A : Type 0} (e : Error) (o : Option A) (s : State) → cash (or_raise e o s).1 ≡ cash s
unfolding or_raise
or_raise_level e none s = refl
or_raise_level e (some a) s = refl

get_order-Level : (i : Ident) → Level (get_order i)
unfolding Level get_order
get_order-Level i s = or_raise_level _ (lookup i s.db.orders) s

get_position-Level : (u o : Ident) → Level (get_position u o)
unfolding Level get_position
get_position-Level u o s = or_raise_level _ (find_position u o s.db.positions) s

update_status-Level : (i : Ident) (st : OrderStatus) (q : Quantity) → Level (update_status i st q)
unfolding update_status
update_status-Level i st q = both-Level _ _ (get_order-Level i) (λ o. modify-Level _ (λ _. refl))

upsert-Level : (p : Position) → Level (upsert p)
unfolding upsert
upsert-Level p = modify-Level _ (λ _. refl)

engine_cancel-Level : (o i : Ident) → Level (engine_cancel o i)
unfolding Level engine_cancel
engine_cancel-Level o i s = refl

released : (b l c : Money) → b +ℤ c +ℤ (l -ℤ c) -ℤ (b +ℤ l) ≡ pos 0
released b l c = omega int_laws

release_funds-Level : (i : Ident) (o : Order) → Level (release_funds i o)
unfolding Level release_funds get_user update_balance ◌>>=◌ or_raise modify
release_funds-Level i o s = elim (Option-cases (lookup i s.db.users)) [
  | inl e ↦ rw e refl
  | inr (u, e) ↦
      rw (e, e)
        (total_worth-insert i u
            (set_balance (u.balance +ℤ unfilled_cost o) (u.locked_balance -ℤ unfilled_cost o) u)
            s.db.users e
          ∙ ap (λ x. cash s +ℤ x) (released u.balance u.locked_balance (unfilled_cost o))
          ∙ sym (add_zero (cash s)))
]

release_if_buy-Level : (s : OrderSide) (i : Ident) (o : Order) → Level (release_if_buy s i o)
unfolding release_if_buy
release_if_buy-Level buy i o = release_funds-Level i o
release_if_buy-Level sell i o = pure-Level tt

service_cancel_order-Level : (u i : Ident) → Level (service_cancel_order u i)
unfolding service_cancel_order
service_cancel_order-Level u i = both-Level _ _ (get_order-Level i) (λ o.
    both-Level _ _ (raise_if-Level _ _) (λ _.
      both-Level _ _ (engine_cancel-Level _ _)
        (λ _. both-Level _ _ (release_if_buy-Level o.side u o) (λ _. update_status-Level _ _ _))))

restore_position-Level : (o : Order) → Level (restore_position o)
unfolding restore_position
restore_position-Level o = both-Level _ _ (get_position-Level _ _) (λ held. upsert-Level _)

release_order-Level : (s : OrderSide) (o : Order) → Level (release_order s o)
unfolding release_order
release_order-Level buy o = release_funds-Level o.user_id o
release_order-Level sell o = restore_position-Level o

cancel_one-Level : (o : Order) → Level (cancel_one o)
unfolding cancel_one
cancel_one-Level o =
    both-Level _ _ (engine_cancel-Level _ _)
      (λ _. both-Level _ _ (release_order-Level o.side o) (λ _. update_status-Level _ _ _))

cancel_each-Level : (n : ℕ) (os : List Order) → Level (cancel_each n os)
unfolding cancel_each
cancel_each-Level n [] = pure-Level n
cancel_each-Level n (o ∷ os) =
    both-Level _ _ (cancel_one-Level o) (λ _. cancel_each-Level (suc n) os)

cancel_all-Level : (m : Ident) → Level (cancel_all_orders_by_market m)
unfolding cancel_all_orders_by_market list_open_by_market
cancel_all-Level m = both-Level _ _ (gets-Level _) (λ os. cancel_each-Level 0 os)

-- CancelOrder and CancelAllOrdersByMarket leave the money of all users, available and locked, as it
-- was, whether they succeed or fail at any step.
pub cancels-Level :
    (user i market : Ident) (s : State)
    → (cash (service_cancel_order user i s).1 ≡ cash s)
      × (cash (cancel_all_orders_by_market market s).1 ≡ cash s)
unfolding Level
cancels-Level user i market s = (service_cancel_order-Level user i s, cancel_all-Level market s)
