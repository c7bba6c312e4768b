-- ===== src/Matching/Book/Invariant/Remove.antt =====
-- What takes an order out of a book: CancelOrder and the dequeuing of the best order.
use truth_market.Base.{
  ◌≡◌, refl, sym, subst, ◌∙◌, true, false, Option, none, some, List, [], ◌∷◌, arith, ◌==◌,
  Bool-cases, inl, inr,
}
use truth_market.Base.Maps.{update}
use truth_market.Domain.{Ident, OrderSide, buy, sell, Order}
use truth_market.Matching.Queue.{has_id, first}
use truth_market.Matching.Queue.Laws.{
  Distinct, Distinct-without, without, rest_of, has_id-append, has_id-without, without-append,
  without-absent,
}
use truth_market.Matching.Book.{
  PriceQueue, Orderbook, orders_of, find_order, best, dequeue_best, dequeue_best_bid,
  dequeue_best_ask, cancel_order, cancel_by_side,
}
use truth_market.Matching.Book.Levels.{IsSide}
use truth_market.Matching.Book.Levels.Change.{best-first, dequeue_best_lem}
use truth_market.Matching.Book.Levels.Cancel.{
  Distinct-append_apart, Distinct-append_right, find_order-append, cancel_in-some,
}
use truth_market.Matching.Book.Invariant.{IsBook, view, all_of, cancel_in_view}
use truth_market.Matching.Book.Invariant.Keep.{
  Becomes, Distinct-append_apart_right, Distinct-append_left,
}

-- A book that has lost one identifier, on both sides of the view and in `order_side`.
forget-Becomes :
    (i : Ident) (ob : Orderbook) (bs as' : List PriceQueue)
    → IsBook ob
    → IsSide buy bs
    → IsSide sell as'
    → orders_of bs ≡ without i (orders_of ob.bids)
    → orders_of as' ≡ without i (orders_of ob.asks)
    → Becomes
        (record ob { bids = bs; asks = as'; order_side = update i none ob.order_side })
        (cancel_in_view i (view ob))
forget-Becomes i ob bs as' v sb sa eb ea = (
  record {
    bids = sb;
    asks = sa;
    distinct =
        rw (eb, ea)
          (rw (without-append i (orders_of ob.bids) (orders_of ob.asks)) at
            (Distinct-without i _ v.distinct));
    sides = λ j.
        rw (eb, ea)
          (ground (
            arith,
            v.sides j,
            has_id-without i j (orders_of ob.bids),
            has_id-without i j (orders_of ob.asks),
          ));
  },
  rw (eb, ea),
)

-- Taking the first of distinct orders off is taking its identifier out.
rest_of-without :
    (x : Order) (xs : List Order) → Distinct xs → first xs ≡ some x → rest_of xs ≡ without x.id xs
unfolding without
rest_of-without x [] d f = refl
rest_of-without x (y ∷ xs) d f = ground (arith, without-absent y.id xs d.0)

has_id-first : (x : Order) (xs : List Order) → first xs ≡ some x → has_id x.id xs ≡ true
unfolding has_id
has_id-first x [] f = cc
has_id-first x (y ∷ xs) f = ground arith

pub dequeue_best_bid-Becomes :
    (x : Order) (ob : Orderbook)
    → IsBook ob
    → best ob.bids ≡ some x
    → Becomes (dequeue_best_bid ob) (record (view ob) { bids = rest_of (orders_of ob.bids) })
unfolding dequeue_best_bid
dequeue_best_bid-Becomes x ob v b =
    let f : first (orders_of ob.bids) ≡ some x = sym (best-first buy ob.bids v.bids.0) ∙ b in
    let (side, e) = dequeue_best_lem buy ob.bids v.bids in
    rw (b, dequeue_best_bid)
      (
        (forget-Becomes x.id ob (dequeue_best ob.bids) ob.asks v side v.asks
            (e ∙ rest_of-without x _ (Distinct-append_left _ _ v.distinct) f)
            (sym (
              without-absent x.id _
                (Distinct-append_apart x.id _ _ v.distinct (has_id-first x _ f))))).0,
        rw e,
      )

pub dequeue_best_ask-Becomes :
    (x : Order) (ob : Orderbook)
    → IsBook ob
    → best ob.asks ≡ some x
    → Becomes (dequeue_best_ask ob) (record (view ob) { asks = rest_of (orders_of ob.asks) })
unfolding dequeue_best_ask
dequeue_best_ask-Becomes x ob v b =
    let f : first (orders_of ob.asks) ≡ some x = sym (best-first sell ob.asks v.asks.0) ∙ b in
    let (side, e) = dequeue_best_lem sell ob.asks v.asks in
    rw (b, dequeue_best_ask)
      (
        (forget-Becomes x.id ob ob.bids (dequeue_best ob.asks) v v.bids side
            (sym (
              without-absent x.id _
                (Distinct-append_apart_right x.id _ _ v.distinct (has_id-first x _ f))))
            (e ∙ rest_of-without x _ (Distinct-append_right (orders_of ob.bids) _ v.distinct) f)).0,
        rw e,
      )

-- What a cancellation gives.
abbrev pub Cancels : Ident → Orderbook → Option Order × Orderbook → Type 0
Cancels i ob (r, ob') =
    (r ≡ find_order i (all_of (view ob))) × Becomes ob' (cancel_in_view i (view ob))

find_order-present :
    (i : Ident) (xs : List Order) → has_id i xs ≡ true → (o : Order) × (find_order i xs ≡ some o)
unfolding has_id
find_order-present i [] h = absurd (ground arith)
find_order-present i (x ∷ xs) h = elim (Bool-cases (x.id == i)) [
  | inl e ↦ (x, rw e)
  | inr e ↦ rw e (find_order-present i xs (rw e at h))
]

cancel_bid :
    (i : Ident) (ob : Orderbook)
    → IsBook ob
    → has_id i (orders_of ob.bids) ≡ true
    → Cancels i ob (cancel_by_side i (some buy) ob)
unfolding cancel_by_side
cancel_bid i ob v h =
    let (o, f) = find_order-present i (orders_of ob.bids) h in
    let (ms, e, c) =
      cancel_in-some buy i o ob.bids v.bids (Distinct-append_left _ _ v.distinct) f in
    rw (e, cancel_by_side)
      (
        sym (rw h at (find_order-append i (orders_of ob.bids) (orders_of ob.asks)) ∙ f),
        forget-Becomes i ob ms ob.asks v c.side v.asks c.orders
            (sym (without-absent i _ (Distinct-append_apart i _ _ v.distinct h))),
      )

cancel_ask :
    (i : Ident) (ob : Orderbook)
    → IsBook ob
    → has_id i (orders_of ob.asks) ≡ true
    → Cancels i ob (cancel_by_side i (some sell) ob)
unfolding cancel_by_side
cancel_ask i ob v h =
    let (o, f) = find_order-present i (orders_of ob.asks) h in
    let no = Distinct-append_apart_right i (orders_of ob.bids) (orders_of ob.asks) v.distinct h in
    let (ms, e, c) =
      cancel_in-some sell i o ob.asks v.asks
        (Distinct-append_right (orders_of ob.bids) _ v.distinct) f in
    rw (e, cancel_by_side)
      (
        sym (rw no at (find_order-append i (orders_of ob.bids) (orders_of ob.asks)) ∙ f),
        forget-Becomes i ob ob.bids ms v v.bids c.side (sym (without-absent i _ no)) c.orders,
      )

find_order-absent : (i : Ident) (xs : List Order) → has_id i xs ≡ false → find_order i xs ≡ none
unfolding has_id
find_order-absent i [] h = refl
find_order-absent i (x ∷ xs) h = ground (arith, find_order-absent i xs)

cancel_missing :
    (i : Ident) (ob : Orderbook)
    → IsBook ob
    → has_id i (orders_of ob.bids) ≡ false
    → has_id i (orders_of ob.asks) ≡ false
    → Cancels i ob (cancel_by_side i none ob)
unfolding cancel_by_side
cancel_missing i ob v b a = (
  sym (
      find_order-absent i _
        (ground (arith, has_id-append i (orders_of ob.bids) (orders_of ob.asks)))),
  (v, rw (without-absent i _ b, without-absent i _ a)),
)

cancel_at :
    (i : Ident) (ob : Orderbook) (t : Option OrderSide)
    → ob.order_side i ≡ t
    → Cancels i ob (cancel_by_side i t ob)
    → Cancels i ob (cancel_by_side i (ob.order_side i) ob)
cancel_at i ob t e c = subst (λ t. Cancels i ob (cancel_by_side i t ob)) (sym e) c

-- Cancelling by identifier answers with the order of that identifier, if the book has it, and
-- leaves both sides as they were without it, in their order, with the invariant kept.
pub cancel_order-Cancels :
    (i : Ident) (ob : Orderbook) → IsBook ob → Cancels i ob (cancel_order i ob)
unfolding cancel_order
cancel_order-Cancels i ob v = elim (Bool-cases (has_id i (orders_of ob.bids))) [
  | inl b ↦ cancel_at i ob (some buy) (v.sides i ∙ rw b) (cancel_bid i ob v b)
  | inr nb ↦ elim (Bool-cases (has_id i (orders_of ob.asks))) [
    | inl a ↦ cancel_at i ob (some sell) (v.sides i ∙ rw (nb, a)) (cancel_ask i ob v a)
    | inr na ↦ cancel_at i ob none (v.sides i ∙ rw (nb, na)) (cancel_missing i ob v nb na)
  ]
]
