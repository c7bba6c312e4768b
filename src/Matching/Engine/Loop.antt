-- ===== src/Matching/Engine/Loop.antt =====
-- The end of matchOrder's loop, on the fuel that it is given, and the end of the walk.
use truth_market.Base.{
  ℕ, zero, suc, ◌≤◌, ◌≡◌, refl, sym, ap, subst, ◌∙◌, false, none, some, List, [], ◌∷◌, ◌++◌, arith,
  ◌==◌, length, length-append, Bool-cases, inl, inr,
}
use truth_market.Domain.{Ident, Order}
use truth_market.Matching.Queue.{first}
use truth_market.Matching.Queue.Laws.{rest_of}
use truth_market.Matching.Book.{Orderbook, set_first}
use truth_market.Matching.Book.Invariant.{IsBook, view}
use truth_market.Matching.Book.Invariant.Keep.{Becomes}
use truth_market.Matching.Engine.{
  Matching, best_opposite, dequeue_opposite, set_opposite, apart, is_done, trade_qty, new_trade,
  fill_by, filled_maker, skip_maker, match_step, match_loop,
}
use truth_market.Matching.Engine.Amounts.{trade_fills, live_of_not_done}
use truth_market.Matching.Engine.Opposite.{
  opposite_of, with_opposite, best_opposite-first, dequeue_opposite-Becomes, set_opposite-Becomes,
}
use truth_market.Matching.Engine.Priority.{Filled, stop, skip_first, trade_first, stop_in, fill}
use truth_market.Matching.Engine.Priority.Clauses.{
  fill-done, fill-apart, fill-skip, fill-filled, fill-partial,
}
use truth_market.Matching.Engine.Refine.{
  Ends, opposite_of-with, Ends-stop, skip_maker-Ends, traded, traded-Ends, loop-stop, loop-step,
  step-done, step-empty, step-apart, step-skip, step-trade, trade_with-filled, trade_with-partial,
}

module _ (uuid : ℕ → Ident) where
  -- What the loop does from a state, on some fuel.
  abbrev Follows : ℕ → Matching → List Order → Type 0
  Follows fuel m os = Ends uuid m (fill uuid (length m.trades) m.taker os) (match_loop fuel uuid m)

  module _ (fuel : ℕ) (m : Matching) (o : Order) (os : List Order) (v : IsBook m.book)
      (e : opposite_of m.taker.side (view m.book) ≡ o ∷ os) where
    front : best_opposite m.taker.side m.book ≡ some o
    front = best_opposite-first m.taker.side m.book v ∙ ap first e

    stops : match_step uuid m ≡ none → Ends uuid m (stop m.taker (o ∷ os)) (match_loop fuel uuid m)
    stops h = subst (Ends uuid m _) (sym (loop-stop fuel uuid m h)) (Ends-stop uuid m _ v e h)

    taken :
        Becomes (dequeue_opposite m.taker.side m.book) (with_opposite m.taker.side os (view m.book))
    taken =
        subst
          (λ t.
            Becomes (dequeue_opposite m.taker.side m.book)
              (with_opposite m.taker.side t (view m.book)))
          (ap rest_of e) (dequeue_opposite-Becomes m.taker.side o m.book v front)

    written :
        is_done (filled_maker m.taker o) ≡ false
        → Becomes
            (set_opposite m.taker.side (filled_maker m.taker o) m.book)
            (with_opposite m.taker.side (filled_maker m.taker o ∷ os) (view m.book))
    written d =
        subst
          (λ t.
            Becomes (set_opposite m.taker.side (filled_maker m.taker o) m.book)
              (with_opposite m.taker.side t (view m.book)))
          (ap (set_first (filled_maker m.taker o)) e)
          (set_opposite-Becomes m.taker.side (filled_maker m.taker o) o m.book v front refl
            (λ t p r. record {
              on_side = r.on_side;
              at_level = r.at_level;
              live = live_of_not_done (filled_maker m.taker o) d;
            }))

length-snoc {ℓ} : {A : Type ℓ} (xs : List A) (x : A) → length (xs ++ x ∷ []) ≡ suc (length xs)
length-snoc xs x = omega (arith, length-append {_} xs (x ∷ []))

module _ (uuid : ℕ → Ident) where
  -- A round that trades, on the rest of the loop.
  after_trade :
      (fuel : ℕ) (m : Matching) (o : Order) (ob : Orderbook) (os : List Order) (r : Filled)
      → Becomes ob (with_opposite m.taker.side os (view m.book))
      → match_step uuid m ≡ some (traded uuid o ob m)
      → Ends uuid (traded uuid o ob m) r (match_loop fuel uuid (traded uuid o ob m))
      → Ends uuid m
          (trade_first (new_trade (uuid (length m.trades)) m.taker o) r)
          (match_loop (suc fuel) uuid m)
  after_trade fuel m o ob os r k h x =
      subst (Ends uuid m _) (sym (loop-step fuel uuid m (traded uuid o ob m) h))
        (traded-Ends uuid m _ o ob os r k x)

  after_skip :
      (fuel : ℕ) (m : Matching) (o : Order) (os : List Order) (r : Filled)
      → Becomes (dequeue_opposite m.taker.side m.book) (with_opposite m.taker.side os (view m.book))
      → match_step uuid m ≡ some (skip_maker o m)
      → Ends uuid (skip_maker o m) r (match_loop fuel uuid (skip_maker o m))
      → Ends uuid m (skip_first o r) (match_loop (suc fuel) uuid m)
  after_skip fuel m o os r k h x =
      subst (Ends uuid m _) (sym (loop-step fuel uuid m (skip_maker o m) h))
        (skip_maker-Ends uuid m _ o os r k x)

  -- After a trade that leaves something of the maker the taker is filled, and the loop stops.
  partial_stops :
      (fuel : ℕ) (m : Matching) (o : Order) (ob : Orderbook) (os : List Order)
      → Becomes ob (with_opposite m.taker.side (filled_maker m.taker o ∷ os) (view m.book))
      → is_done (filled_maker m.taker o) ≡ false
      → Ends uuid
          (traded uuid o ob m)
          (stop (fill_by (trade_qty m.taker o) m.taker) (filled_maker m.taker o ∷ os))
          (match_loop fuel uuid (traded uuid o ob m))
  unfolding traded
  partial_stops fuel m o ob os k d =
      let h = step-done uuid (traded uuid o ob m) (trade_fills m.taker o d) in
      subst (Ends uuid (traded uuid o ob m) _) (sym (loop-stop fuel uuid (traded uuid o ob m) h)) (
        Ends-stop uuid (traded uuid o ob m) _ k.0
          (ap (opposite_of m.taker.side) k.1
            ∙ opposite_of-with m.taker.side (view m.book) (filled_maker m.taker o ∷ os))
          h)

  at_end :
      (fuel : ℕ) (m : Matching)
      → IsBook m.book
      → opposite_of m.taker.side (view m.book) ≡ []
      → Follows uuid fuel m []
  unfolding fill
  at_end fuel m v e =
      let h = step-empty uuid m (best_opposite-first m.taker.side m.book v ∙ ap first e) in
      subst (Ends uuid m _) (sym (loop-stop fuel uuid m h)) (Ends-stop uuid m [] v e h)

  module _ (fuel : ℕ) (m : Matching) (o : Order) (os : List Order) (v : IsBook m.book)
      (e : opposite_of m.taker.side (view m.book) ≡ o ∷ os)
      (ih : (m' : Matching)
        → IsBook m'.book
        → opposite_of m'.taker.side (view m'.book) ≡ os
        → Follows uuid fuel m' os) where
    skip_case :
        match_step uuid m ≡ some (skip_maker o m)
        → fill uuid (length m.trades) m.taker (o ∷ os)
          ≡ skip_first o (fill uuid (length m.trades) m.taker os)
        → Follows uuid (suc fuel) m (o ∷ os)
    unfolding skip_maker
    skip_case h f =
        let k = taken uuid fuel m o os v e in
        rw f (
          after_skip fuel m o os _ k h (
            ih (skip_maker o m) k.0
              (ap (opposite_of m.taker.side) k.1 ∙ opposite_of-with m.taker.side (view m.book) os)))

    filled_case :
        match_step uuid m ≡ some (traded uuid o (dequeue_opposite m.taker.side m.book) m)
        → fill uuid (length m.trades) m.taker (o ∷ os)
          ≡ trade_first
              (new_trade (uuid (length m.trades)) m.taker o)
              (fill uuid (suc (length m.trades)) (fill_by (trade_qty m.taker o) m.taker) os)
        → Follows uuid (suc fuel) m (o ∷ os)
    unfolding traded
    filled_case h f =
        let k = taken uuid fuel m o os v e in
        let t' = fill_by (trade_qty m.taker o) m.taker in
        let m' = traded uuid o (dequeue_opposite m.taker.side m.book) m in
        rw f (
          after_trade fuel m o _ os _ k h (
            subst (λ n. Ends uuid m' (fill uuid n t' os) (match_loop fuel uuid m'))
              (length-snoc m.trades (new_trade (uuid (length m.trades)) m.taker o))
              (ih m' k.0 (
                ap (opposite_of m.taker.side) k.1
                ∙ opposite_of-with m.taker.side (view m.book) os))))

    partial_case :
        is_done (filled_maker m.taker o) ≡ false
        → match_step uuid m
          ≡ some (traded uuid o (set_opposite m.taker.side (filled_maker m.taker o) m.book) m)
        → fill uuid (length m.trades) m.taker (o ∷ os)
          ≡ stop_in
              (fill_by (trade_qty m.taker o) m.taker)
              (new_trade (uuid (length m.trades)) m.taker o)
              (filled_maker m.taker o)
              os
        → Follows uuid (suc fuel) m (o ∷ os)
    partial_case d h f =
        let k = written uuid fuel m o os v e d in
        rw f (after_trade fuel m o _ _ _ k h (partial_stops fuel m o _ os k d))

    trade_case :
        is_done m.taker ≡ false
        → apart m.taker.side m.taker.price o.price ≡ false
        → (m.taker.user_id == o.user_id) ≡ false
        → Follows uuid (suc fuel) m (o ∷ os)
    trade_case live cross u =
        let b = front uuid fuel m o os v e in
        let n = length m.trades in
        let h = step-trade uuid m o b live cross u in
        elim (Bool-cases (is_done (filled_maker m.taker o))) [
          | inl d ↦
              filled_case (h ∙ ap some (trade_with-filled uuid m o b v d))
                (fill-filled uuid n m.taker o os live cross u d)
          | inr d ↦
              partial_case d (h ∙ ap some (trade_with-partial uuid m o b d))
                (fill-partial uuid n m.taker o os live cross u d)
        ]

    round : Follows uuid (suc fuel) m (o ∷ os)
    round =
        let b = front uuid fuel m o os v e in
        let n = length m.trades in
        let stops_at = stops uuid (suc fuel) m o os v e in
        elim (Bool-cases (is_done m.taker)) [
          | inl d ↦ rw (fill-done uuid n m.taker o os d) (stops_at (step-done uuid m d))
          | inr live ↦ elim (Bool-cases (apart m.taker.side m.taker.price o.price)) [
            | inl a ↦
                rw (fill-apart uuid n m.taker o os live a) (stops_at (step-apart uuid m o b a))
            | inr cross ↦ elim (Bool-cases (m.taker.user_id == o.user_id)) [
              | inl u ↦
                  skip_case (step-skip uuid m o b live cross u)
                    (fill-skip uuid n m.taker o os live cross u)
              | inr u ↦ trade_case live cross u
            ]
          ]
        ]

  -- With as much fuel as the opposite side has orders the loop ends as the walk does.
  pub match_loop-Ends :
      (fuel : ℕ) (m : Matching) (os : List Order)
      → IsBook m.book
      → opposite_of m.taker.side (view m.book) ≡ os
      → length os ≤ fuel
      → Ends uuid m (fill uuid (length m.trades) m.taker os) (match_loop fuel uuid m)
  match_loop-Ends fuel m [] v e l = at_end fuel m v e
  match_loop-Ends zero m (o ∷ os) v e l = absurd (omega arith)
  match_loop-Ends (suc fuel) m (o ∷ os) v e l =
      round fuel m o os v e (λ m' v' e'. match_loop-Ends fuel m' os v' e' (omega arith))
