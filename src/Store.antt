-- ===== src/Store.antt =====
-- The repositories that the services read and write: users, orders and markets as the in-memory ones
-- of infra/memory, which list a map in an order that Go does not fix; positions, outcomes, trades and
-- mints as infra/postgres uses its tables. Failures of the database connection are left out.
mod Monad
pub mod Cash
pub mod Rules
pub mod Quiet
pub use Monad.{Db, State, Action, and_then, ◌>>◌, with_tx_from}
unfoldable pub use Monad.{◌>>=◌, pure, raise, or_raise, gets, modify, raise_if, with_tx, no_op_undo}
use truth_market.Base.{
  ℕ, ◌+◌, Bool, true, false, not, ◌&&◌, ◌||◌, Option, none, some, List, [], ◌∷◌, ◌++◌, map, ◌==◌,
  if◌then◌else◌, length, take, drop,
}
use truth_market.Base.Maps.{lookup, insert}
use truth_market.Domain.{
  Ident, Quantity, Money, OrderStatus, open_order, partially_filled, filled, cancelled, Order,
  Trade, Position, MintTransaction, User, Market, Outcome,
}
use truth_market.Errors.{plain_error}

abbrev is_known {ℓ} : {V : Type ℓ} → Option V → Bool
is_known none = false
is_known (some v) = true

abbrev pub filter {ℓ} : {A : Type ℓ} → (A → Bool) → List A → List A
filter p [] = []
filter p (x ∷ xs) = let rest = filter p xs in if p x then x ∷ rest else rest

abbrev pub values {ℓ} : {V : Type ℓ} → List (Ident × V) → List V
values m = map (λ p. p.1) m

-- `matched[start:end]`
unfoldable pub page {ℓ} : {A : Type ℓ} → ℕ → ℕ → List A → List A
page limit offset xs = if limit == 0 then drop offset xs else take limit (drop offset xs)

-- UserRepository
unfoldable pub create_user : User → Action Unit
create_user u = do
  known ← gets (λ db. is_known (lookup u.id db.users))
  raise_if known plain_error
  modify (λ db. record db { users = insert u.id u db.users })

unfoldable pub get_user : Ident → Action User
get_user i s = or_raise plain_error (lookup i s.db.users) s

abbrev find_wallet : Ident → List User → Option User
find_wallet w [] = none
find_wallet w (u ∷ us) =
    let rest = find_wallet w us in if u.wallet_address == w then some u else rest

unfoldable pub get_user_by_wallet : Ident → Action User
get_user_by_wallet w s = or_raise plain_error (find_wallet w (values s.db.users)) s

abbrev pub set_balance : Money → Money → User → User
set_balance b l u = record u { balance = b; locked_balance = l }

unfoldable pub update_balance : Ident → Money → Money → Action Unit
unfolding get_user
update_balance i b l = do
  u ← get_user i
  modify (λ db. record db { users = insert i (set_balance b l u) db.users })

-- OrderRepository
unfoldable pub create_order : Order → Action Unit
create_order o = do
  known ← gets (λ db. is_known (lookup o.id db.orders))
  raise_if known plain_error
  modify (λ db. record db { orders = insert o.id o db.orders })

unfoldable pub get_order : Ident → Action Order
get_order i s = or_raise plain_error (lookup i s.db.orders) s

unfoldable pub update_status : Ident → OrderStatus → Quantity → Action Unit
unfolding get_order
update_status i st q = do
  o ← get_order i
  modify
      (λ db. record db { orders = insert i (record o { status = st; filled_qty = q }) db.orders })

abbrev pub is_open : OrderStatus → Bool
is_open open_order = true
is_open partially_filled = true
is_open filled = false
is_open cancelled = false

unfoldable pub list_open_by_market : Ident → Action (List Order)
list_open_by_market m =
    gets (λ db. filter (λ (o : Order). (o.market_id == m) && is_open o.status) (values db.orders))

unfoldable pub list_all_open : Action (List Order)
list_all_open = gets (λ db. filter (λ (o : Order). is_open o.status) (values db.orders))

abbrev orders_of_user : Ident → Db → List Order
orders_of_user u db = filter (λ (o : Order). o.user_id == u) (values db.orders)

-- The page, and how many orders the user has.
unfoldable pub list_by_user : Ident → ℕ → ℕ → Action (List Order × ℕ)
unfolding page
list_by_user u limit offset =
    gets (λ db. (page limit offset (orders_of_user u db), length (orders_of_user u db)))

-- PositionRepo
abbrev pub is_position_of : Ident → Ident → Ident → Position → Bool
is_position_of u m o p = (p.user_id == u) && (p.market_id == m) && (p.outcome_id == o)

abbrev pub upsert_in : Position → List Position → List Position
upsert_in p [] = p ∷ []
upsert_in p (x ∷ xs) =
    let rest = upsert_in p xs in
    if is_position_of p.user_id p.market_id p.outcome_id x
    then record x { quantity = p.quantity; avg_price = p.avg_price } ∷ xs
    else x ∷ rest

-- The row of the position's user, market and outcome is overwritten, or a new one is inserted.
unfoldable pub upsert : Position → Action Unit
upsert p = modify (λ db. record db { positions = upsert_in p db.positions })

abbrev pub find_position : Ident → Ident → List Position → Option Position
find_position u o [] = none
find_position u o (p ∷ ps) =
    let rest = find_position u o ps in
    if (p.user_id == u) && (p.outcome_id == o) then some p else rest

unfoldable pub get_position : Ident → Ident → Action Position
get_position u o s = or_raise plain_error (find_position u o s.db.positions) s

unfoldable pub list_positions_by_user : Ident → Action (List Position)
list_positions_by_user u = gets (λ db. filter (λ (p : Position). p.user_id == u) db.positions)

unfoldable pub list_positions_by_market : Ident → Action (List Position)
list_positions_by_market m = gets (λ db. filter (λ (p : Position). p.market_id == m) db.positions)

-- TradeRepo
unfoldable pub create_trade : Trade → Action Unit
create_trade t = modify (λ db. record db { trades = db.trades ++ t ∷ [] })

unfoldable pub create_mint_tx : MintTransaction → Action Unit
create_mint_tx t = modify (λ db. record db { mints = db.mints ++ t ∷ [] })

-- MarketRepository
unfoldable pub create_market_row : Market → Action Unit
create_market_row m = do
  known ← gets (λ db. is_known (lookup m.id db.markets))
  raise_if known plain_error
  modify (λ db. record db { markets = insert m.id m db.markets })

unfoldable pub get_market_row : Ident → Action Market
get_market_row i s = or_raise plain_error (lookup i s.db.markets) s

unfoldable pub update_market : Market → Action Unit
update_market m = do
  known ← gets (λ db. is_known (lookup m.id db.markets))
  raise_if (not known) plain_error
  modify (λ db. record db { markets = insert m.id m db.markets })

-- OutcomeRepo
unfoldable pub create_outcomes : List Outcome → Action Unit
create_outcomes os = modify (λ db. record db { outcomes = db.outcomes ++ os })

unfoldable pub list_outcomes : Ident → Action (List Outcome)
list_outcomes m = gets (λ db. filter (λ (o : Outcome). o.market_id == m) db.outcomes)

abbrev has_outcome : Ident → List Outcome → Bool
has_outcome i [] = false
has_outcome i (o ∷ os) = (o.id == i) || has_outcome i os

abbrev mark_winner : Ident → Outcome → Outcome
mark_winner i o = if o.id == i then record o { is_winner = true } else o

unfoldable pub set_winner : Ident → Action Unit
set_winner i = do
  known ← gets (λ db. has_outcome i db.outcomes)
  raise_if (not known) plain_error
  modify (λ db. record db { outcomes = map (mark_winner i) db.outcomes })
