-- ===== src/Matching/Registry/Laws.antt =====
-- The invariant of every book of every engine under the registry's calls.
use truth_market.Base.{
  ◌≡◌, Bool, false, List, [], ◌∷◌, ◌==◌, All, Bool-cases, inl, inr, Result, ok, err, ℕ,
}
use truth_market.Base.Int.{◌<ℤ◌}
use truth_market.Base.Maps.{lookup, insert}
use truth_market.Domain.{Ident, Order, zero_dec, remaining_qty}
use truth_market.Matching.Queue.{has_id}
use truth_market.Matching.Book.{add_order}
use truth_market.Matching.Book.Invariant.{view, all_of}
use truth_market.Matching.Book.Invariant.Keep.{add_order-Becomes}
use truth_market.Matching.Engine.{
  Engine, EngineError, new_engine, get_or_create_orderbook, engine_cancel_order,
}
use truth_market.Matching.Engine.Books.{
  IsEngine, place_order-IsEngine, engine_cancel_order-IsEngine, insert-All, get_or_create-IsBook,
}
use truth_market.Matching.Registry.{
  Registry, get_or_create, registry_place_order, registry_cancel_order, cancel_in_engines, found_in,
  restore_order, or_new_engine,
}

abbrev pub IsRegistry : Registry → Type 0
IsRegistry r = All (λ p. IsEngine p.1) r.engines

new_engine-IsEngine : (m : Ident) → IsEngine (new_engine m)
unfolding new_engine
new_engine-IsEngine m = tt

lookup-IsEngine :
    (m : Ident) (es : List (Ident × Engine))
    → All (λ p. IsEngine p.1) es
    → IsEngine (or_new_engine m (lookup m es))
lookup-IsEngine m [] a = new_engine-IsEngine m
lookup-IsEngine m (p ∷ es) a = elim (Bool-cases (p.0 == m)) [
  | inl e ↦ rw e a.0
  | inr e ↦ rw e (lookup-IsEngine m es a.1)
]

insert-IsEngine :
    (m : Ident) (e : Engine) (es : List (Ident × Engine))
    → IsEngine e
    → All (λ p. IsEngine p.1) es
    → All (λ p. IsEngine p.1) (insert m e es)
insert-IsEngine m e [] v a = (v, tt)
insert-IsEngine m e (p ∷ es) v a = elim (Bool-cases (p.0 == m)) [
  | inl q ↦ rw q (v, a.1)
  | inr q ↦ rw q (a.0, insert-IsEngine m e es v a.1)
]

get_or_create-IsEngine : (m : Ident) (r : Registry) → IsRegistry r → IsEngine (get_or_create m r)
unfolding get_or_create
get_or_create-IsEngine m r v = lookup-IsEngine m r.engines v

-- The book that an order of a market and an outcome goes to.
abbrev pub is_fresh : Order → Registry → Bool
is_fresh o r =
    has_id o.id (all_of (view (get_or_create_orderbook o.outcome_id (get_or_create o.market_id r))))

found_in-IsEngine :
    (m : Ident) (r : Result EngineError Order × Engine) (es : List (Ident × Engine))
    (rest : Result EngineError Order × List (Ident × Engine))
    → IsEngine r.1
    → All (λ p. IsEngine p.1) es
    → All (λ p. IsEngine p.1) rest.1
    → All (λ p. IsEngine p.1) (found_in m r es rest).1
found_in-IsEngine m (ok x, e) es rest v a b = (v, a)
found_in-IsEngine m (err x, e) es (x', es') v a b = (v, b)

cancel_in_engines-IsEngine :
    (o i : Ident) (es : List (Ident × Engine))
    → All (λ p. IsEngine p.1) es
    → All (λ p. IsEngine p.1) (cancel_in_engines o i es).1
unfolding cancel_in_engines
cancel_in_engines-IsEngine o i [] a = tt
cancel_in_engines-IsEngine o i (p ∷ es) a =
    found_in-IsEngine p.0 (engine_cancel_order o i p.1) es (cancel_in_engines o i es)
      (engine_cancel_order-IsEngine o i p.1 a.0) a.1 (cancel_in_engines-IsEngine o i es a.1)

-- Placing, cancelling and restoring an order keep the invariant of every book of every engine; the
-- order placed or restored has an identifier that is not in the book of its outcome, and one that
-- is restored has something left to fill.
pub registry-IsRegistry :
    (uuid : ℕ → Ident) (o : Order) (k i : Ident) (r : Registry)
    → IsRegistry r
    → is_fresh o r ≡ false
    → zero_dec <ℤ remaining_qty o
    → IsRegistry (registry_place_order uuid o r).1
      × IsRegistry (registry_cancel_order k i r).1
      × IsRegistry (restore_order o r)
unfolding registry_place_order registry_cancel_order restore_order
registry-IsRegistry uuid o k i r v fresh live =
    let e = get_or_create o.market_id r in
    let ve = get_or_create-IsEngine o.market_id r v in
    let ob = get_or_create_orderbook o.outcome_id e in
    (
      insert-IsEngine o.market_id _ r.engines (place_order-IsEngine uuid o e ve fresh) v,
      cancel_in_engines-IsEngine k i r.engines v,
      insert-IsEngine o.market_id _ r.engines
          (insert-All o.outcome_id (add_order o ob) e.orderbooks
            (add_order-Becomes o ob (get_or_create-IsBook o.outcome_id e ve) live fresh).0 ve)
          v,
    )
