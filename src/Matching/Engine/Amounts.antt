-- ===== src/Matching/Engine/Amounts.antt =====
-- engine.go: the amounts of one trade between a taker and a maker.
use truth_market.Base.{◌≡◌, true, false, arith, inl, inr, ◌⊎◌}
use truth_market.Base.Int.{ℤ, ◌-ℤ◌, ◌<ℤ◌, ◌≤ℤ◌, int_laws}
use truth_market.Domain.{Quantity, zero_dec, Order, remaining_qty}
use truth_market.Matching.Engine.{min_dec, trade_qty, fill_by, filled_maker, is_done}

-- What is left after an amount is filled.
pub remaining_qty-fill_by :
    (q : Quantity) (o : Order) → remaining_qty (fill_by q o) ≡ remaining_qty o -ℤ q
remaining_qty-fill_by q o = omega int_laws

pub live_of_not_done : (o : Order) → is_done o ≡ false → zero_dec <ℤ remaining_qty o
live_of_not_done o h = ground arith

pub done_of_zero : (o : Order) → remaining_qty o ≤ℤ zero_dec → is_done o ≡ true
done_of_zero o h = ground arith

min_dec-cases : (a b : ℤ) → (min_dec a b ≡ a) ⊎ (min_dec a b ≡ b)
min_dec-cases a b = ground arith

-- A trade fills the maker or the taker.
pub trade_fills :
    (taker maker : Order)
    → is_done (filled_maker taker maker) ≡ false
    → is_done (fill_by (trade_qty taker maker) taker) ≡ true
trade_fills taker maker h = elim (min_dec-cases (remaining_qty taker) (remaining_qty maker)) [
  | inl e ↦ done_of_zero (fill_by (trade_qty taker maker) taker) (rw e (omega int_laws))
  | inr e ↦
      let d : is_done (fill_by (trade_qty taker maker) maker) ≡ true =
        done_of_zero (fill_by (trade_qty taker maker) maker) (rw e (omega int_laws)) in
      absurd (ground arith)
]

pub trade_qty-pos :
    (taker maker : Order)
    → zero_dec <ℤ remaining_qty taker
    → zero_dec <ℤ remaining_qty maker
    → zero_dec <ℤ trade_qty taker maker
trade_qty-pos taker maker t m = elim (min_dec-cases (remaining_qty taker) (remaining_qty maker)) [
  | inl e ↦ rw e t
  | inr e ↦ rw e m
]

pub trade_qty-le_taker : (taker maker : Order) → trade_qty taker maker ≤ℤ remaining_qty taker
trade_qty-le_taker taker maker = ground arith

pub trade_qty-le_maker : (taker maker : Order) → trade_qty taker maker ≤ℤ remaining_qty maker
trade_qty-le_maker taker maker = ground arith
