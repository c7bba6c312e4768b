-- ===== src/Matching/Engine/Walk.antt =====
-- What the walk of matchOrder over the opposite side guarantees.
pub mod Partition
use truth_market.Base.{
  ℕ, suc, ◌+◌, ◌≤◌, ◌<◌, ◌≡◌, refl, sym, subst, ◌∙◌, ◌⊎◌, false, ◌||◌, List, [], ◌∷◌, ◌++◌, arith,
  ◌==◌, if◌then◌else◌, All,
}
use truth_market.Base.Int.{ℤ, ◌+ℤ◌, ◌-ℤ◌, ◌<ℤ◌, ◌≤ℤ◌, int_laws}
use truth_market.Domain.{Ident, Quantity, zero_dec, Order, Trade, remaining_qty}
use truth_market.Matching.Engine.{apart, is_done, trade_qty, new_trade, fill_by}
use truth_market.Matching.Engine.Amounts.{live_of_not_done, trade_qty-pos, trade_qty-le_taker}
use truth_market.Matching.Engine.Priority.Clauses.{fill_cases, fill-nil}
use truth_market.Matching.Engine.Priority.{Filled, fill}

abbrev pub total_qty : List Trade → Quantity
total_qty [] = zero_dec
total_qty (t ∷ ts) = t.quantity +ℤ total_qty ts

abbrev pub total_remaining : List Order → Quantity
total_remaining [] = zero_dec
total_remaining (o ∷ os) = remaining_qty o +ℤ total_remaining os

abbrev pub IsLive : Order → Type 0
IsLive o = zero_dec <ℤ remaining_qty o

-- The taker's filled quantity grows by what the trades amount to, and the taker changes in nothing
-- else.
abbrev pub Fills : Order → Filled → Type 0
Fills t r = r.taker ≡ fill_by (total_qty r.trades) t

fill_by-zero : (t : Order) → t ≡ fill_by zero_dec t
fill_by-zero t = ground (arith, plus_zero t.filled_qty)
  where
    plus_zero : (q : ℤ) → q ≡ q +ℤ zero_dec
    plus_zero q = omega int_laws

fill_by-twice : (q r : Quantity) (t : Order) → fill_by r (fill_by q t) ≡ fill_by (q +ℤ r) t
fill_by-twice q r t = ground (arith, regroup t.filled_qty q r)
  where
    regroup : (a b c : ℤ) → a +ℤ b +ℤ c ≡ a +ℤ (b +ℤ c)
    regroup a b c = omega int_laws

fill_by-once : (q : Quantity) (t : Order) → fill_by q t ≡ fill_by (q +ℤ zero_dec) t
fill_by-once q t = fill_by-zero (fill_by q t) ∙ fill_by-twice q zero_dec t

pub fill-Fills :
    (uuid : ℕ → Ident) (n : ℕ) (t : Order) (os : List Order) → Fills t (fill uuid n t os)
fill-Fills uuid n t [] = subst (Fills t) (sym (fill-nil uuid n t)) (fill_by-zero t)
fill-Fills uuid n t (o ∷ os) =
    let q = trade_qty t o in
    fill_cases (Fills t) uuid n t o os (λ e. fill_by-zero t) (λ e. fill_by-zero t)
      (λ e c. fill-Fills uuid n t os)
      (λ l c u d.
        fill-Fills uuid (suc n) (fill_by q t) os
        ∙ fill_by-twice q (total_qty (fill uuid (suc n) (fill_by q t) os).trades) t)
      (λ l c u d. fill_by-once q t)

-- The taker is never filled beyond its quantity.
abbrev pub WithinQuantity : Filled → Type 0
WithinQuantity r = zero_dec ≤ℤ remaining_qty r.taker

pub fill-WithinQuantity :
    (uuid : ℕ → Ident) (n : ℕ) (t : Order) (os : List Order)
    → zero_dec ≤ℤ remaining_qty t
    → WithinQuantity (fill uuid n t os)
fill-WithinQuantity uuid n t [] h = subst WithinQuantity (sym (fill-nil uuid n t)) h
fill-WithinQuantity uuid n t (o ∷ os) h =
    let le = trade_qty-le_taker t o in
    let within = stays (trade_qty t o) t le in
    fill_cases WithinQuantity uuid n t o os (λ e. h) (λ e. h)
      (λ e c. fill-WithinQuantity uuid n t os h)
      (λ l c u d. fill-WithinQuantity uuid (suc n) (fill_by (trade_qty t o) t) os within)
      (λ l c u d. within)
  where
    stays :
        (q : Quantity) (t : Order) → q ≤ℤ remaining_qty t → zero_dec ≤ℤ remaining_qty (fill_by q t)
    stays q t le = omega int_laws

-- What each trade of a taker is: between two users, of a positive quantity, at a price that the
-- taker accepts.
pub record IsTradeOf (t : Order) (x : Trade) : Type 0 where
  pub taker_order : x.taker_order_id ≡ t.id
  pub taker_user : x.taker_user_id ≡ t.user_id
  pub two_users : (x.taker_user_id == x.maker_user_id) ≡ false
  pub acceptable : apart t.side t.price x.price ≡ false
  pub positive : zero_dec <ℤ x.quantity

abbrev pub Trades : Order → Filled → Type 0
Trades t r = All (IsTradeOf t) r.trades

pub fill-Trades :
    (uuid : ℕ → Ident) (n : ℕ) (t : Order) (os : List Order)
    → All IsLive os
    → Trades t (fill uuid n t os)
fill-Trades uuid n t [] h = subst (Trades t) (sym (fill-nil uuid n t)) tt
fill-Trades uuid n t (o ∷ os) h =
    let q = trade_qty t o in
    fill_cases (Trades t) uuid n t o os (λ e. tt) (λ e. tt) (λ e c. fill-Trades uuid n t os h.1)
      (λ l c u d. (
        one l c u,
        same_taker (fill uuid (suc n) (fill_by q t) os).trades
            (fill-Trades uuid (suc n) (fill_by q t) os h.1),
      ))
      (λ l c u d. (one l c u, tt))
  where
    one :
        is_done t ≡ false
        → apart t.side t.price o.price ≡ false
        → (t.user_id == o.user_id) ≡ false
        → IsTradeOf t (new_trade (uuid n) t o)
    one l c u = record {
      taker_order = refl;
      taker_user = refl;
      two_users = u;
      acceptable = c;
      positive = trade_qty-pos t o (live_of_not_done t l) h.0;
    }

    same_taker :
        (xs : List Trade) → All (IsTradeOf (fill_by (trade_qty t o) t)) xs → All (IsTradeOf t) xs
    same_taker [] a = tt
    same_taker (x ∷ xs) a = (
      record {
        taker_order = a.0.taker_order;
        taker_user = a.0.taker_user;
        two_users = a.0.two_users;
        acceptable = a.0.acceptable;
        positive = a.0.positive;
      },
      same_taker xs a.1,
    )
