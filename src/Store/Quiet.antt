-- ===== src/Store/Quiet.antt =====
-- The repository calls that change no user.
use truth_market.Base.{◌≡◌, refl, Bool, true, false, Option, none, some}
use truth_market.Domain.{
  Ident, Quantity, Order, OrderStatus, Trade, Position, MintTransaction, Market,
}
use truth_market.Errors.{Error, plain_error}
use truth_market.Base.Maps.{lookup}
use truth_market.Store.{
  Db, State, or_raise, gets, modify, raise_if, pure, create_order, get_order, update_status, upsert,
  get_position, find_position, create_trade, create_mint_tx, list_open_by_market,
  list_positions_by_market, list_outcomes, get_market_row, update_market, set_winner,
}
use truth_market.Store.Cash.{Quiet, Ensures}
use truth_market.Store.Rules.{both-Quiet}

pub pure-Quiet : {A : Type 0} (a : A) → Quiet (pure a)
unfolding Quiet pure
pure-Quiet a s = refl

pub gets-Quiet : {A : Type 0} (f : Db → A) → Quiet (gets f)
unfolding Quiet gets
gets-Quiet f s = refl

pub raise_if-Quiet : (b : Bool) (e : Error) → Quiet (raise_if b e)
unfolding Quiet raise_if
raise_if-Quiet true e s = tt
raise_if-Quiet false e s = refl

or_raise_in :
    {A : Type 0} (e : Error) (o : Option A) (s : State)
    → Ensures (λ _ t. t.db.users ≡ s.db.users) (or_raise e o s)
unfolding or_raise
or_raise_in e none s = tt
or_raise_in e (some a) s = refl

pub modify-Quiet : (f : Db → Db) → ((db : Db) → (f db).users ≡ db.users) → Quiet (modify f)
unfolding Quiet modify
modify-Quiet f h s = h s.db

pub create_order-Quiet : (o : Order) → Quiet (create_order o)
unfolding create_order
create_order-Quiet o =
    both-Quiet _ _ (gets-Quiet _)
      (λ known. both-Quiet _ _ (raise_if-Quiet known _) (λ _. modify-Quiet _ (λ _. refl)))

pub get_order-Quiet : (i : Ident) → Quiet (get_order i)
unfolding get_order Quiet
get_order-Quiet i s = or_raise_in plain_error (lookup i s.db.orders) s

pub update_status-Quiet :
    (i : Ident) (st : OrderStatus) (q : Quantity) → Quiet (update_status i st q)
unfolding update_status
update_status-Quiet i st q = both-Quiet _ _ (get_order-Quiet i) (λ o. modify-Quiet _ (λ _. refl))

pub upsert-Quiet : (p : Position) → Quiet (upsert p)
unfolding upsert
upsert-Quiet p = modify-Quiet _ (λ _. refl)

pub get_position-Quiet : (u o : Ident) → Quiet (get_position u o)
unfolding get_position Quiet
get_position-Quiet u o s = or_raise_in plain_error (find_position u o s.db.positions) s

pub create_trade-Quiet : (t : Trade) → Quiet (create_trade t)
unfolding create_trade
create_trade-Quiet t = modify-Quiet _ (λ _. refl)

pub create_mint_tx-Quiet : (t : MintTransaction) → Quiet (create_mint_tx t)
unfolding create_mint_tx
create_mint_tx-Quiet t = modify-Quiet _ (λ _. refl)

pub list_open_by_market-Quiet : (m : Ident) → Quiet (list_open_by_market m)
unfolding list_open_by_market
list_open_by_market-Quiet m = gets-Quiet _

pub list_positions_by_market-Quiet : (m : Ident) → Quiet (list_positions_by_market m)
unfolding list_positions_by_market
list_positions_by_market-Quiet m = gets-Quiet _

pub list_outcomes-Quiet : (m : Ident) → Quiet (list_outcomes m)
unfolding list_outcomes
list_outcomes-Quiet m = gets-Quiet _

pub get_market_row-Quiet : (i : Ident) → Quiet (get_market_row i)
unfolding get_market_row Quiet
get_market_row-Quiet i s = or_raise_in plain_error (lookup i s.db.markets) s

pub update_market-Quiet : (m : Market) → Quiet (update_market m)
unfolding update_market
update_market-Quiet m =
    both-Quiet _ _ (gets-Quiet _)
      (λ known. both-Quiet _ _ (raise_if-Quiet _ _) (λ _. modify-Quiet _ (λ _. refl)))

pub set_winner-Quiet : (i : Ident) → Quiet (set_winner i)
unfolding set_winner
set_winner-Quiet i =
    both-Quiet _ _ (gets-Quiet _)
      (λ known. both-Quiet _ _ (raise_if-Quiet _ _) (λ _. modify-Quiet _ (λ _. refl)))
