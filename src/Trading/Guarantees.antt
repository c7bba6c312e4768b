-- ===== src/Trading/Guarantees.antt =====
-- What the calls of the trading service guarantee of the users' money and of the database.
use truth_market.Base.{◌≡◌, refl, ◌||◌, Bool, true, false, ℕ, Result, ok, err}
use truth_market.Base.Int.{pos, ◌+ℤ◌, ◌-ℤ◌, ltb_ℤ}
use truth_market.Domain.{Ident, Price, Quantity, Money, money_of, min_price, max_price}
use truth_market.Errors.{Error}
use truth_market.Store.{Db, State, Action, ◌>>=◌, ◌>>◌, raise_if, with_tx, with_tx_from}
use truth_market.Store.Cash.{Ensures, Shifted, Shifts, cash}
use truth_market.Trading.Orders.{PlaceOrderRequest, Draws, service_place_order}
use truth_market.Trading.Mint.{mint_tokens}
use truth_market.Trading.Funds.{place_order_tx-Shifts, mint_tokens_tx-Shifts}

-- A call that succeeds changes the money of all users by an amount, and one that fails leaves the
-- database as it was.
abbrev pub Atomic : {A : Type 0} → Money → State → Result Error A × State → Type 0
Atomic d s (ok a, t) = cash t ≡ cash s +ℤ d
Atomic d s (err e, t) = t.db ≡ s.db

-- A manager whose failed transactions leave the database as it was.
abbrev pub RollsBack : (Db → Db → Db) → Type 0
RollsBack undo = (before failed : Db) → undo before failed ≡ before

with_tx-Atomic :
    {A : Type 0} (undo : Db → Db → Db) (d : Money) (m : Action A)
    → RollsBack undo
    → Shifts d m
    → (s : State) → Atomic d s (with_tx undo m s)
unfolding Shifts with_tx
with_tx-Atomic {A = A} undo d m rolls h s = ended (m s) (h s)
  where
    ended :
        (r : Result Error A × State)
        → Ensures (Shifted d s) r
        → Atomic d s (with_tx_from undo s.db r)
    ended (ok a, t) g = g
    ended (err e, t) g = rolls s.db t.db

checked :
    {A : Type 0} (b : Bool) (e : Error) (d : Money) (m : Action A) (s : State)
    → Atomic d s (m s)
    → Atomic d s ((raise_if b e >> m) s)
unfolding ◌>>=◌ raise_if
checked true e d m s h = refl
checked false e d m s h = h

-- PlaceOrder with a transaction manager that rolls back: if it succeeds, with all its trades
-- settled, the money of all users, available and locked, is what it was, and if it fails the
-- database is.
pub service_place_order-Atomic :
    (undo : Db → Db → Db) (div : Money → Quantity → Price) (d : Draws) (req : PlaceOrderRequest)
    (s : State)
    → RollsBack undo
    → Atomic (pos 0) s (service_place_order undo div d req s)
unfolding service_place_order
service_place_order-Atomic undo div d req s rolls =
    checked (ltb_ℤ req.price min_price || ltb_ℤ max_price req.price) _ _ _ s
      (with_tx-Atomic undo _ _ rolls (place_order_tx-Shifts div d req) s)

-- MintTokens with a transaction manager that rolls back: if it succeeds, the money of all users has
-- fallen by a dollar for each token of a set, and if it fails the database is what it was.
pub mint_tokens-Atomic :
    (undo : Db → Db → Db) (ids : ℕ → Ident) (i u m : Ident) (q : Quantity) (s : State)
    → RollsBack undo
    → Atomic (pos 0 -ℤ money_of q) s (mint_tokens undo ids i u m q s)
unfolding mint_tokens
mint_tokens-Atomic undo ids i u m q s rolls =
    with_tx-Atomic undo _ _ rolls (mint_tokens_tx-Shifts ids i u m q) s
