-- ===== src/Matching/Engine/Priority.antt =====
-- What matchOrder computes, said of the list of the orders of the opposite side: a walk from the
-- best order to the worst, with neither a loop nor a book.
pub mod Clauses
use truth_market.Base.{ℕ, suc, List, [], ◌∷◌, ◌==◌, if◌then◌else◌}
use truth_market.Domain.{Ident, Order, Trade}
use truth_market.Matching.Engine.{apart, is_done, trade_qty, new_trade, fill_by, filled_maker}

pub record Filled : Type 0 where
  pub taker : Order
  pub trades : List Trade
  -- What is left of the side, and what was passed over in it as the taker's own.
  pub left : List Order
  pub skipped : List Order

abbrev pub stop : Order → List Order → Filled
stop taker os = record { taker = taker; trades = []; left = os; skipped = [] }

abbrev pub skip_first : Order → Filled → Filled
skip_first o r = record r { skipped = o ∷ r.skipped }

abbrev pub trade_first : Trade → Filled → Filled
trade_first t r = record r { trades = t ∷ r.trades }

abbrev pub stop_in : Order → Trade → Order → List Order → Filled
stop_in taker t maker os = record {
  taker = taker;
  trades = t ∷ [];
  left = maker ∷ os;
  skipped = [];
}

-- `n` is how many trades the call has made.
unfoldable pub fill : (ℕ → Ident) → ℕ → Order → List Order → Filled
fill uuid n taker [] = stop taker []
fill uuid n taker (o ∷ os) =
    let t = new_trade (uuid n) taker o in
    let taker' = fill_by (trade_qty taker o) taker in
    let o' = filled_maker taker o in
    let past = skip_first o (fill uuid n taker os) in
    let on = trade_first t (fill uuid (suc n) taker' os) in
    if is_done taker
    then stop taker (o ∷ os)
    else if apart taker.side taker.price o.price
    then stop taker (o ∷ os)
    else if taker.user_id == o.user_id
    then past
    else if is_done o'
    then on
    else stop_in taker' t o' os
