-- ===== src/Trading/Funds.antt =====
-- The money of the users under the calls of the trading service.
use truth_market.Base.{
  ◌≡◌, refl, ap, ◌∙◌, subst, ℕ, suc, Bool, true, false, List, [], ◌∷◌, if◌then◌else◌, Result, ok,
  err,
}
use truth_market.Base.Int.{pos, ◌+ℤ◌, ◌-ℤ◌, ◌*ℤ◌, int_laws, *ℤ_comm, *ℤ_sub, ltb_ℤ}
use truth_market.Domain.{
  Ident, Price, Quantity, Money, cost_of, money_of, OrderSide, buy, sell, Order, Trade, Outcome,
  zero_dec,
}
use truth_market.Matching.Engine.{EngineError}
use truth_market.Matching.Registry.{registry_place_order, registry_cancel_order}
use truth_market.Store.{State, Action, ◌>>=◌}
use truth_market.Store.Cash.{Quiet, Shifts, Ensures}
use truth_market.Store.Rules.{
  Quiet-Pays, write-Pays, read-Pays, both-Quiet, Quiet-then, shift_then, level_then, Quiet-Shifts,
  move_funds, set_funds,
}
use truth_market.Store.Quiet.{
  gets-Quiet, pure-Quiet, raise_if-Quiet, create_order-Quiet, get_order-Quiet, update_status-Quiet,
  upsert-Quiet, get_position-Quiet, create_trade-Quiet, create_mint_tx-Quiet,
  list_open_by_market-Quiet, list_outcomes-Quiet,
}
use truth_market.Trading.Orders.{
  engine_result, PlaceOrderRequest, Draws, reserve, engine_place, settle_buyer_funds,
  settle_buyer_position, settle_seller, settle_maker_order, settle_trade, settle_trades,
  update_taker_order, place_order_tx, buyer_of, seller_of, buyer_price,
}
use truth_market.Trading.Cancels.{
  engine_cancel, release_funds, restore_position, release_order, cancel_one, cancel_each,
  cancel_all_orders_by_market, unfilled_cost,
}
use truth_market.Trading.Mint.{mint_positions, mint_tokens_tx}

-- Moving money between the two balances keeps their sum.
lock_sum : (b l c : Money) → b -ℤ c +ℤ (l +ℤ c) -ℤ (b +ℤ l) ≡ pos 0
lock_sum b l c = omega int_laws

release_sum : (b l c : Money) → b +ℤ c +ℤ (l -ℤ c) -ℤ (b +ℤ l) ≡ pos 0
release_sum b l c = omega int_laws

reserve-Shifts : (s : OrderSide) (req : PlaceOrderRequest) → Shifts (pos 0) (reserve s req)
unfolding reserve
reserve-Shifts buy req =
    move_funds req.user_id (λ u. ltb_ℤ u.balance (cost_of req.price req.quantity)) _
      (λ u. u.balance -ℤ cost_of req.price req.quantity)
      (λ u. u.locked_balance +ℤ cost_of req.price req.quantity) (pos 0)
      (λ u. lock_sum u.balance u.locked_balance (cost_of req.price req.quantity))
reserve-Shifts sell req = Quiet-Shifts _ (
    both-Quiet _ _ (get_position-Quiet req.user_id req.outcome_id)
      (λ held. both-Quiet _ _ (raise_if-Quiet _ _) (λ _. upsert-Quiet _)))

engine_result_quiet :
    {A : Type 0} (r : Result EngineError A) (s t : State)
    → t.db.users ≡ s.db.users
    → Ensures (λ _ u. u.db.users ≡ s.db.users) (engine_result r, t)
engine_result_quiet (ok a) s t e = e
engine_result_quiet (err x) s t e = tt

engine_place-Quiet : (ids : ℕ → Ident) (o : Order) → Quiet (engine_place ids o)
unfolding engine_place Quiet
engine_place-Quiet ids o s = engine_result_quiet (registry_place_order ids o s.registry).0 s _ refl

engine_cancel-Quiet : (o i : Ident) → Quiet (engine_cancel o i)
unfolding engine_cancel Quiet
engine_cancel-Quiet o i s = engine_result_quiet (registry_cancel_order o i s.registry).0 s _ refl

paid : (lp p : Price) (q : Quantity) → cost_of (lp -ℤ p) q ≡ cost_of lp q -ℤ cost_of p q
paid lp p q =
    *ℤ_comm (lp -ℤ p) q
    ∙ *ℤ_sub q lp p
    ∙ ap (λ x. x -ℤ q *ℤ p) (*ℤ_comm q lp)
    ∙ ap (λ x. lp *ℤ q -ℤ x) (*ℤ_comm q p)

add_zero_right : (d : Money) → d +ℤ pos 0 ≡ d
add_zero_right d = omega int_laws

buyer_sum : (b l c k x : Money) → x ≡ k -ℤ c → b +ℤ x +ℤ (l -ℤ k) -ℤ (b +ℤ l) ≡ pos 0 -ℤ c
buyer_sum b l c k x e = rw e (omega int_laws)

seller_sum : (b l c : Money) → b +ℤ c +ℤ l -ℤ (b +ℤ l) ≡ c
seller_sum b l c = omega int_laws

settle_buyer_funds-Shifts :
    (i : Ident) (lp : Price) (t : Trade)
    → Shifts (pos 0 -ℤ cost_of t.price t.quantity) (settle_buyer_funds i lp t)
unfolding settle_buyer_funds
settle_buyer_funds-Shifts i lp t =
    set_funds i (λ u. u.balance +ℤ cost_of (lp -ℤ t.price) t.quantity)
      (λ u. u.locked_balance -ℤ cost_of lp t.quantity) _
      (λ u.
        buyer_sum u.balance u.locked_balance (cost_of t.price t.quantity) (cost_of lp t.quantity)
          (cost_of (lp -ℤ t.price) t.quantity) (paid lp t.price t.quantity))

settle_seller-Shifts :
    (i : Ident) (t : Trade) → Shifts (cost_of t.price t.quantity) (settle_seller i t)
unfolding settle_seller
settle_seller-Shifts i t =
    set_funds i (λ u. u.balance +ℤ cost_of t.price t.quantity) (λ u. u.locked_balance) _
      (λ u. seller_sum u.balance u.locked_balance (cost_of t.price t.quantity))

settle_buyer_position-Quiet :
    (div : Money → Quantity → Price) (i b : Ident) (t : Trade)
    → Quiet (settle_buyer_position div i b t)
unfolding settle_buyer_position
settle_buyer_position-Quiet div i b t = both-Quiet _ _ (gets-Quiet _) (λ held. upsert-Quiet _)

settle_maker_order-Quiet : (t : Trade) → Quiet (settle_maker_order t)
unfolding settle_maker_order
settle_maker_order-Quiet t =
    both-Quiet _ _ (get_order-Quiet t.maker_order_id) (λ maker. update_status-Quiet _ _ _)

paid_over : (c : Money) → pos 0 -ℤ c +ℤ c ≡ pos 0
paid_over c = omega int_laws

shift_to : {A : Type 0} (d e : Money) (m : Action A) → d ≡ e → Shifts d m → Shifts e m
shift_to d e m h p = subst (λ x. Shifts x m) h p

-- A call that changes the sum, and then one that changes no user.
shift-Quiet :
    {A B : Type 0} (d : Money) (m : Action A) (k : A → Action B)
    → Shifts d m
    → ((a : A) → Quiet (k a))
    → Shifts d (m >>= k)
shift-Quiet d m k p q =
    subst (λ x. Shifts x (m >>= k)) (add_zero_right d)
      (shift_then d (pos 0) m k p (λ a. Quiet-Shifts (k a) (q a)))

-- What the buyer pays in a trade, the seller gets.
settle_trade-Shifts :
    (div : Money → Quantity → Price) (i : Ident) (o : Order) (t : Trade)
    → Shifts (pos 0) (settle_trade div i o t)
unfolding settle_trade
settle_trade-Shifts div i o t = Quiet-then _ _ _ (create_trade-Quiet t) (λ _.
    shift_to _ _ _ (paid_over (cost_of t.price t.quantity)) (
      shift_then _ _ _ _ (settle_buyer_funds-Shifts (buyer_of o.side t) (buyer_price o t) t) (λ _.
        Quiet-then _ _ _ (settle_buyer_position-Quiet div i _ t) (λ _.
          shift-Quiet _ _ _ (settle_seller-Shifts (seller_of o.side t) t)
            (λ _. settle_maker_order-Quiet t)))))

settle_trades-Shifts :
    (div : Money → Quantity → Price) (ids : ℕ → Ident) (n : ℕ) (o : Order) (ts : List Trade)
    → Shifts (pos 0) (settle_trades div ids n o ts)
unfolding settle_trades
settle_trades-Shifts div ids n o [] = Quiet-Shifts _ (pure-Quiet tt)
settle_trades-Shifts div ids n o (t ∷ ts) =
    level_then _ _ _ (settle_trade-Shifts div (ids n) o t)
      (λ _. settle_trades-Shifts div ids (suc n) o ts)

if-Quiet : {A : Type 0} (b : Bool) (m k : Action A) → Quiet m → Quiet k → Quiet (if b then m else k)
if-Quiet true m k p q = p
if-Quiet false m k p q = q

update_taker_order-Quiet : (o : Order) → Quiet (update_taker_order o)
unfolding update_taker_order
update_taker_order-Quiet o =
    if-Quiet (ltb_ℤ zero_dec o.filled_qty) _ _ (update_status-Quiet _ _ _) (pure-Quiet tt)

pub place_order_tx-Shifts :
    (div : Money → Quantity → Price) (d : Draws) (req : PlaceOrderRequest)
    → Shifts (pos 0) (place_order_tx div d req)
unfolding place_order_tx
place_order_tx-Shifts div d req = level_then _ _ _ (reserve-Shifts req.side req) (λ _.
    Quiet-then _ _ _ (create_order-Quiet _) (λ _. Quiet-then _ _ _ (engine_place-Quiet _ _) (λ r.
      level_then _ _ _ (settle_trades-Shifts div _ 0 r.order r.trades) (λ _.
        Quiet-Shifts _ (both-Quiet _ _ (update_taker_order-Quiet r.order) (λ _. pure-Quiet _))))))

release_funds-Shifts : (i : Ident) (o : Order) → Shifts (pos 0) (release_funds i o)
unfolding release_funds
release_funds-Shifts i o =
    set_funds i (λ u. u.balance +ℤ unfilled_cost o) (λ u. u.locked_balance -ℤ unfilled_cost o) _
      (λ u. release_sum u.balance u.locked_balance (unfilled_cost o))

restore_position-Quiet : (o : Order) → Quiet (restore_position o)
unfolding restore_position
restore_position-Quiet o = both-Quiet _ _ (get_position-Quiet _ _) (λ held. upsert-Quiet _)

release_order-Shifts : (s : OrderSide) (o : Order) → Shifts (pos 0) (release_order s o)
unfolding release_order
release_order-Shifts buy o = release_funds-Shifts o.user_id o
release_order-Shifts sell o = Quiet-Shifts _ (restore_position-Quiet o)

cancel_one-Shifts : (o : Order) → Shifts (pos 0) (cancel_one o)
unfolding cancel_one
cancel_one-Shifts o =
    Quiet-then _ _ _ (engine_cancel-Quiet _ _)
      (λ _. shift-Quiet _ _ _ (release_order-Shifts o.side o) (λ _. update_status-Quiet _ _ _))

cancel_each-Shifts : (n : ℕ) (os : List Order) → Shifts (pos 0) (cancel_each n os)
unfolding cancel_each
cancel_each-Shifts n [] = Quiet-Shifts _ (pure-Quiet n)
cancel_each-Shifts n (o ∷ os) =
    level_then _ _ _ (cancel_one-Shifts o) (λ _. cancel_each-Shifts (suc n) os)

pub cancel_all-Shifts : (m : Ident) → Shifts (pos 0) (cancel_all_orders_by_market m)
unfolding cancel_all_orders_by_market
cancel_all-Shifts m = Quiet-then _ _ _ (list_open_by_market-Quiet m) (λ os. cancel_each-Shifts 0 os)

mint_positions-Quiet :
    (ids : ℕ → Ident) (n : ℕ) (u m : Ident) (q : Quantity) (os : List Outcome)
    → Quiet (mint_positions ids n u m q os)
unfolding mint_positions
mint_positions-Quiet ids n u m q [] = pure-Quiet []
mint_positions-Quiet ids n u m q (o ∷ os) =
    both-Quiet _ _ (upsert-Quiet _)
      (λ _. both-Quiet _ _ (mint_positions-Quiet ids (suc n) u m q os) (λ _. pure-Quiet _))

pay_sum : (b l c : Money) → b -ℤ c +ℤ l -ℤ (b +ℤ l) ≡ pos 0 -ℤ c
pay_sum b l c = omega int_laws

pub mint_tokens_tx-Shifts :
    (ids : ℕ → Ident) (i u m : Ident) (q : Quantity)
    → Shifts (pos 0 -ℤ money_of q) (mint_tokens_tx ids i u m q)
unfolding mint_tokens_tx
mint_tokens_tx-Shifts ids i u m q = read-Pays u _ _ (λ us user found.
    Quiet-Pays us _ _ _ (raise_if-Quiet _ _) (λ _.
      Quiet-Pays us _ _ _ (list_outcomes-Quiet m) (λ os.
        Quiet-Pays us _ _ _ (mint_positions-Quiet ids 0 u m q os) (λ ps.
          write-Pays us u user _ _ _ _ found (pay_sum user.balance user.locked_balance (money_of q))
            (both-Quiet _ _ (create_mint_tx-Quiet _) (λ _. pure-Quiet ps))))))
