-- ===== src/Matching/Registry.antt =====
-- services/trading-svc/internal/matching/registry.go. The engines are listed by market; Go iterates
-- over a map in an order that it does not fix, and the list is one such order.
pub mod Laws
use truth_market.Base.{ℕ, Option, none, some, List, [], ◌∷◌, if◌then◌else◌, ◌==◌, Result, ok, err}
use truth_market.Base.Maps.{lookup, insert}
use truth_market.Domain.{Ident, Order}
use truth_market.Matching.Book.{Orderbook, PriceLevel, add_order, get_depth}
use truth_market.Matching.Engine.{
  Engine, EngineError, order_not_found, MatchResult, new_engine, place_order, engine_cancel_order,
  get_or_create_orderbook, get_orderbook,
}

pub record Registry : Type 0 where
  pub engines : List (Ident × Engine)

unfoldable pub new_registry : Registry
new_registry = record { engines = [] }

abbrev pub or_new_engine : Ident → Option Engine → Engine
or_new_engine m none = new_engine m
or_new_engine m (some e) = e

unfoldable pub get_or_create : Ident → Registry → Engine
unfolding new_engine
get_or_create m r = or_new_engine m (lookup m r.engines)

unfoldable pub registry_place_order :
    (ℕ → Ident) → Order → Registry → Result EngineError MatchResult × Registry
unfolding get_or_create place_order
registry_place_order uuid o r =
    let (res, e) = place_order uuid o (get_or_create o.market_id r) in
    (res, record { engines = insert o.market_id e r.engines })

abbrev pub found_in :
    Ident
    → Result EngineError Order × Engine
    → List (Ident × Engine)
    → Result EngineError Order × List (Ident × Engine)
    → Result EngineError Order × List (Ident × Engine)
found_in m (ok o, e) es rest = (ok o, (m, e) ∷ es)
found_in m (err x, e) es (res, es') = (res, (m, e) ∷ es')

-- The engines are asked in turn, until one has the order.
unfoldable pub cancel_in_engines :
    Ident → Ident → List (Ident × Engine) → Result EngineError Order × List (Ident × Engine)
unfolding engine_cancel_order
cancel_in_engines o i [] = (err order_not_found, [])
cancel_in_engines o i ((m, e) ∷ es) =
    found_in m (engine_cancel_order o i e) es (cancel_in_engines o i es)

unfoldable pub registry_cancel_order :
    Ident → Ident → Registry → Result EngineError Order × Registry
unfolding cancel_in_engines
registry_cancel_order o i r =
    let (res, es) = cancel_in_engines o i r.engines in (res, record { engines = es })

unfoldable pub restore_order : Order → Registry → Registry
unfolding get_or_create get_or_create_orderbook add_order
restore_order o r =
    let e = get_or_create o.market_id r in
    let ob = add_order o (get_or_create_orderbook o.outcome_id e) in
    record {
      engines =
          insert o.market_id (record e { orderbooks = insert o.outcome_id ob e.orderbooks })
            r.engines;
    }

abbrev pub depth_of :
    Option Orderbook → ℕ → List PriceLevel × List PriceLevel → List PriceLevel × List PriceLevel
depth_of none n rest = rest
depth_of (some ob) n rest = get_depth ob n

-- The depth in the first engine that has a book of the outcome.
unfoldable pub depth_in_engines :
    Ident → ℕ → List (Ident × Engine) → List PriceLevel × List PriceLevel
unfolding get_orderbook get_depth
depth_in_engines o n [] = ([], [])
depth_in_engines o n ((m, e) ∷ es) = depth_of (get_orderbook o e) n (depth_in_engines o n es)

unfoldable pub get_orderbook_depth : Ident → ℕ → Registry → List PriceLevel × List PriceLevel
unfolding depth_in_engines
get_orderbook_depth o n r = depth_in_engines o n r.engines
