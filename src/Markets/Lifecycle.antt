-- ===== src/Markets/Lifecycle.antt =====
-- The life of a market: market.go's validTransitions and UpdateMarketStatus.
use truth_market.Base.{
  ℕ, zero, suc, ◌+◌, ◌≡◌, refl, Bool, true, false, not, none, some, if◌then◌else◌, arith, ok, err,
}
use truth_market.Base.Maps.{lookup, insert}
use truth_market.Domain.{
  Ident, MarketStatus, draft, open_market, closed, resolved, cancelled_market, Market,
}
use truth_market.Errors.{app_error, bad_request}
use truth_market.Store.{
  State, ◌>>=◌, ◌>>◌, raise_if, gets, modify, or_raise, get_market_row, update_market,
}
use truth_market.Markets.{is_valid_transition, update_market_status}

-- How far a status is on the way from a draft to its end.
abbrev pub phase : MarketStatus → ℕ
phase draft = 0
phase open_market = 1
phase closed = 2
phase resolved = 3
phase cancelled_market = 3

-- The statuses that a number of valid transitions lead to.
pub data Reaches : MarketStatus → ℕ → MarketStatus → Type 0 where
  stays : {a : MarketStatus} → Reaches a 0 a
  moves :
      {a b c : MarketStatus} {n : ℕ}
      → Reaches a n b
      → is_valid_transition b c ≡ true
      → Reaches a (suc n) c

transition-phase : (a b : MarketStatus) → is_valid_transition a b ≡ true → phase b ≡ suc (phase a)
unfolding is_valid_transition
transition-phase a b h = ground arith

-- The number of valid transitions between two statuses is the difference of their phases.
pub Reaches-phase : (a b : MarketStatus) (n : ℕ) → Reaches a n b → phase b ≡ n + phase a
Reaches-phase a b zero stays = omega arith
Reaches-phase a c (suc n) (moves {b = b} r h) =
    omega (arith, transition-phase b c h, Reaches-phase a b n r)

known_written :
    (m x : Market) (s : State)
    → lookup m.id s.db.markets ≡ some x
    → update_market m s
      ≡ (ok tt, record s { db = record (s.db) { markets = insert m.id m s.db.markets } })
unfolding update_market ◌>>=◌ raise_if gets modify
known_written m x s e = rw e refl

checked :
    (b : Bool) (m x : Market) (s : State)
    → lookup m.id s.db.markets ≡ some x
    → (raise_if (not b) (app_error bad_request) >> update_market m) s ≡ (
        if b
        then (ok tt, record s { db = record (s.db) { markets = insert m.id m s.db.markets } })
        else (err (app_error bad_request), s))
unfolding ◌>>=◌ raise_if
checked true m x s e = known_written m x s e
checked false m x s e = refl

pub row_written :
    (st : MarketStatus) (m : Market) (s : State)
    → lookup m.id s.db.markets ≡ some m
    → update_market_status m.id st s ≡ (
        if is_valid_transition m.status st
        then (
          ok tt,
          record s {
            db = record (s.db) { markets = insert m.id (record m { status = st }) s.db.markets };
          },
        )
        else (err (app_error bad_request), s))
unfolding update_market_status get_market_row ◌>>=◌ or_raise
row_written st m s e =
    rw e (checked (is_valid_transition m.status st) (record m { status = st }) m s e)

pub no_row :
    (i : Ident) (st : MarketStatus) (s : State)
    → lookup i s.db.markets ≡ none
    → (update_market_status i st s).1 ≡ s
unfolding update_market_status get_market_row ◌>>=◌ or_raise
no_row i st s e = rw e refl
