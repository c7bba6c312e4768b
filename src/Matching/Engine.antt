-- ===== src/Matching/Engine.antt =====
-- services/trading-svc/internal/matching/engine.go. A call holds the lock of the book for its
-- matching and resting phases, so it is one step. The order that a caller passes is an object that
-- the engine writes to: `place_order` returns it as it stands at the end. The identifiers that
-- uuid.New() draws are an argument: `uuid n` is that of the n-th trade of the call. A subscriber is
-- a channel with a capacity.
pub mod Opposite
pub mod Priority
pub mod Amounts
pub mod Refine
pub mod Loop
pub mod Walk
pub mod Place
pub mod Guarantees
pub mod Books
use truth_market.Base.{
  ℕ, zero, suc, ◌+◌, Bool, ◌||◌, Option, none, some, List, [], ◌∷◌, ◌++◌, map, ◌==◌, ltb,
  if◌then◌else◌, length, Result, ok, err,
}
use truth_market.Base.Int.{ℤ, ◌+ℤ◌, ◌-ℤ◌, ltb_ℤ, leb_ℤ}
use truth_market.Base.Maps.{lookup, insert}
use truth_market.Domain.{
  Ident, Quantity, zero_dec, min_price, max_price, OrderSide, buy, sell, OrderStatus,
  partially_filled, filled, cancelled, Order, Trade, remaining_qty,
}
use truth_market.Matching.Book.{
  Orderbook, new_orderbook, add_order, cancel_order, best_bid, best_ask, dequeue_best_bid,
  dequeue_best_ask, set_best, get_bids, get_asks,
}

-- decimal.Min
abbrev pub min_dec : ℤ → ℤ → ℤ
min_dec a b = if ltb_ℤ b a then b else a

pub record Matching : Type 0 where
  pub taker : Order
  pub book : Orderbook
  pub trades : List Trade
  pub skipped : List Order

-- The best order of the side that a taker is matched with.
unfoldable pub best_opposite : OrderSide → Orderbook → Option Order
unfolding best_bid best_ask
best_opposite buy ob = best_ask ob
best_opposite sell ob = best_bid ob

unfoldable pub dequeue_opposite : OrderSide → Orderbook → Orderbook
unfolding dequeue_best_bid dequeue_best_ask
dequeue_opposite buy ob = dequeue_best_ask ob
dequeue_opposite sell ob = dequeue_best_bid ob

-- A write through the pointer to the maker.
unfoldable pub set_opposite : OrderSide → Order → Orderbook → Orderbook
unfolding set_best
set_opposite buy o ob = record ob { asks = set_best o ob.asks }
set_opposite sell o ob = record ob { bids = set_best o ob.bids }

-- The prices do not cross: a buyer offers less, or a seller asks more.
abbrev pub apart : OrderSide → ℤ → ℤ → Bool
apart buy taker maker = ltb_ℤ taker maker
apart sell taker maker = ltb_ℤ maker taker

abbrev pub trade_qty : Order → Order → Quantity
trade_qty taker maker = min_dec (remaining_qty taker) (remaining_qty maker)

abbrev pub new_trade : Ident → Order → Order → Trade
new_trade i taker maker = record {
  id = i;
  market_id = taker.market_id;
  outcome_id = taker.outcome_id;
  maker_order_id = maker.id;
  taker_order_id = taker.id;
  maker_user_id = maker.user_id;
  taker_user_id = taker.user_id;
  price = maker.price;
  quantity = trade_qty taker maker;
}

abbrev pub fill_by : Quantity → Order → Order
fill_by q o = record o { filled_qty = o.filled_qty +ℤ q }

abbrev pub with_status : OrderStatus → Order → Order
with_status s o = record o { status = s }

abbrev pub is_done : Order → Bool
is_done o = leb_ℤ (remaining_qty o) zero_dec

-- The maker after a trade, as it is kept in the book or taken out of it.
abbrev pub filled_maker : Order → Order → Order
filled_maker taker maker =
    let o = fill_by (trade_qty taker maker) maker in
    with_status (if is_done o then filled else partially_filled) o

-- One trade with the maker at the front of the opposite side.
unfoldable pub trade_with : (ℕ → Ident) → Order → Matching → Matching
unfolding set_opposite dequeue_opposite
trade_with uuid maker m =
    let s = m.taker.side in
    let maker' = filled_maker m.taker maker in
    let written = set_opposite s maker' m.book in
    record m {
      taker = fill_by (trade_qty m.taker maker) m.taker;
      book = if is_done maker' then dequeue_opposite s written else written;
      trades = m.trades ++ new_trade (uuid (length m.trades)) m.taker maker ∷ [];
    }

unfoldable pub skip_maker : Order → Matching → Matching
unfolding dequeue_opposite
skip_maker maker m = record m {
  book = dequeue_opposite m.taker.side m.book;
  skipped = m.skipped ++ maker ∷ [];
}

abbrev pub match_with : (ℕ → Ident) → Option Order → Matching → Option Matching
match_with uuid none m = none
match_with uuid (some maker) m =
    if apart m.taker.side m.taker.price maker.price
    then none
    else if m.taker.user_id == maker.user_id
    then some (skip_maker maker m)
    else some (trade_with uuid maker m)

-- A round of the loop of matchOrder; `none` is a `break`.
unfoldable pub match_step : (ℕ → Ident) → Matching → Option Matching
unfolding best_opposite
match_step uuid m =
    if is_done m.taker then none else match_with uuid (best_opposite m.taker.side m.book) m

unfoldable pub match_loop : ℕ → (ℕ → Ident) → Matching → Matching
unfolding match_step
match_loop zero uuid m = m
match_loop (suc fuel) uuid m = elim (match_step uuid m) [
  | none ↦ m
  | some m' ↦ match_loop fuel uuid m'
]

unfoldable pub opposite_orders : OrderSide → Orderbook → List Order
unfolding get_bids get_asks
opposite_orders buy ob = get_asks ob
opposite_orders sell ob = get_bids ob

unfoldable pub add_orders : List Order → Orderbook → Orderbook
unfolding add_order
add_orders [] ob = ob
add_orders (o ∷ os) ob = add_orders os (add_order o ob)

abbrev pub start_matching : Order → Orderbook → Matching
start_matching taker ob = record { taker = taker; book = ob; trades = []; skipped = [] }

-- Every round but the last takes an order off the opposite side, so its length is fuel enough.
unfoldable pub match_order : (ℕ → Ident) → Order → Orderbook → Matching
unfolding match_loop opposite_orders add_orders
match_order uuid taker ob =
    let m =
      match_loop (suc (length (opposite_orders taker.side ob))) uuid (start_matching taker ob) in
    record m { book = add_orders m.skipped m.book }

pub data EngineError : Type 0 where
  invalid_price invalid_quantity order_not_found : EngineError

pub data Event : Type 0 where
  trade_event : Ident → Ident → Trade → Event
  book_update : Ident → Ident → Event

pub record Channel : Type 0 where
  pub capacity : ℕ
  pub buffer : List Event

pub record Engine : Type 0 where
  pub market_id : Ident
  pub orderbooks : List (Ident × Orderbook)
  pub subscribers : List Channel

unfoldable pub new_engine : Ident → Engine
new_engine m = record { market_id = m; orderbooks = []; subscribers = [] }

-- The caller's order at the end, with the trades and the order that rests, if it does.
pub record MatchResult : Type 0 where
  pub order : Order
  pub trades : List Trade
  pub resting : Option Order

-- A full channel drops the event.
abbrev pub send : Event → Channel → Channel
send v c = if ltb (length c.buffer) c.capacity then record c { buffer = c.buffer ++ v ∷ [] } else c

unfoldable pub emit : Event → Engine → Engine
emit v e = record e { subscribers = map (send v) e.subscribers }

unfoldable pub emit_all : List Event → Engine → Engine
unfolding emit
emit_all [] e = e
emit_all (v ∷ vs) e = emit_all vs (emit v e)

unfoldable pub subscribe : Channel → Engine → Engine
subscribe c e = record e { subscribers = e.subscribers ++ c ∷ [] }

abbrev pub or_new : Ident → Option Orderbook → Orderbook
or_new o none = new_orderbook o
or_new o (some ob) = ob

-- The book of an outcome, a new one if there is none.
unfoldable pub get_or_create_orderbook : Ident → Engine → Orderbook
unfolding new_orderbook
get_or_create_orderbook o e = or_new o (lookup o e.orderbooks)

unfoldable pub get_orderbook : Ident → Engine → Option Orderbook
get_orderbook o e = lookup o e.orderbooks

-- The resting phase: the order with its last status, the result and the book.
unfoldable pub rest_order : Matching → MatchResult × Orderbook
unfolding add_order
rest_order m =
    let o =
      if ltb_ℤ zero_dec m.taker.filled_qty then with_status partially_filled m.taker else m.taker in
    let done = with_status filled m.taker in
    if ltb_ℤ zero_dec (remaining_qty m.taker)
    then (record { order = o; trades = m.trades; resting = some o }, add_order o m.book)
    else (record { order = done; trades = m.trades; resting = none }, m.book)

abbrev pub update_event : Ident → Ident → Option Order → List Event
update_event m o none = []
update_event m o (some _) = book_update m o ∷ []

unfoldable pub place_order : (ℕ → Ident) → Order → Engine → Result EngineError MatchResult × Engine
unfolding get_or_create_orderbook match_order rest_order emit_all
place_order uuid o e =
    let ob = get_or_create_orderbook o.outcome_id e in
    let (r, ob') = rest_order (match_order uuid o ob) in
    let e' = record e { orderbooks = insert o.outcome_id ob' e.orderbooks } in
    let events =
      map (trade_event e.market_id o.outcome_id) r.trades
      ++ update_event e.market_id o.outcome_id r.resting in
    if ltb_ℤ o.price min_price || ltb_ℤ max_price o.price
    then (err invalid_price, e)
    else if leb_ℤ o.quantity zero_dec
    then (err invalid_quantity, e)
    else (ok r, emit_all events e')

abbrev pub cancelled_in :
    Ident → Option Order × Orderbook → Engine → Result EngineError Order × Engine
cancelled_in o (none, ob) e =
    (err order_not_found, record e { orderbooks = insert o ob e.orderbooks })
cancelled_in o (some x, ob) e =
    (ok (with_status cancelled x), record e { orderbooks = insert o ob e.orderbooks })

abbrev pub cancel_found :
    Ident → Ident → Option Orderbook → Engine → Result EngineError Order × Engine
cancel_found o i none e = (err order_not_found, e)
cancel_found o i (some ob) e = cancelled_in o (cancel_order i ob) e

-- `Engine.CancelOrder`
unfoldable pub engine_cancel_order : Ident → Ident → Engine → Result EngineError Order × Engine
unfolding cancel_order
engine_cancel_order o i e = cancel_found o i (lookup o e.orderbooks) e
