-- ===== src/Matching/Queue/Laws.antt =====
-- order_queue.go: the queue with its index against a plain list of orders.
use truth_market.Base.{
  ◌≡◌, refl, ap, ◌∙◌, false, ◌||◌, List, [], ◌∷◌, ◌++◌, ◌==◌, if◌then◌else◌, arith, inl, inr,
  Bool-cases,
}
use truth_market.Domain.{Ident, Order}
use truth_market.Matching.Queue.{
  OrderQueue, has_id, erase_last, enqueue, dequeue, dequeue_from, remove,
}

-- The orders whose identifier is another one.
unfoldable pub without : Ident → List Order → List Order
without i [] = []
without i (o ∷ os) = if o.id == i then without i os else o ∷ without i os

-- No identifier twice.
abbrev pub Distinct : List Order → Type 0
Distinct [] = Unit
Distinct (o ∷ os) = (has_id o.id os ≡ false) × Distinct os

pub has_id-append :
    (i : Ident) (xs ys : List Order) → has_id i (xs ++ ys) ≡ (has_id i xs || has_id i ys)
unfolding has_id
has_id-append i [] ys = refl
has_id-append i (x ∷ xs) ys = ground (arith, has_id-append i xs ys)

pub has_id-without :
    (i j : Ident) (os : List Order)
    → has_id j (without i os) ≡ (if j == i then false else has_id j os)
unfolding has_id without
has_id-without i j [] = ground arith
has_id-without i j (o ∷ os) = ground (arith, has_id-without i j os)

pub without-absent : (i : Ident) (os : List Order) → has_id i os ≡ false → without i os ≡ os
unfolding has_id without
without-absent i [] h = refl
without-absent i (o ∷ os) h = ground (arith, without-absent i os)

pub without-append :
    (i : Ident) (xs ys : List Order) → without i (xs ++ ys) ≡ without i xs ++ without i ys
unfolding without
without-append i [] ys = refl
without-append i (x ∷ xs) ys = ground (arith, without-append i xs ys)

pub Distinct-without : (i : Ident) (os : List Order) → Distinct os → Distinct (without i os)
unfolding without
Distinct-without i [] d = tt
Distinct-without i (o ∷ os) d = ground (arith, Distinct-without i os d.1, has_id-without i o.id os)

pub Distinct-snoc :
    (o : Order) (os : List Order) → Distinct os → has_id o.id os ≡ false → Distinct (os ++ o ∷ [])
unfolding has_id
Distinct-snoc o [] d h = (refl, tt)
Distinct-snoc o (x ∷ os) d h =
    ground (arith, Distinct-snoc o os d.1, has_id-append x.id os (o ∷ []))

-- With distinct identifiers the last order of an identifier is the only one.
pub erase_last-eq-without :
    (i : Ident) (os : List Order) → Distinct os → erase_last i os ≡ without i os
unfolding erase_last without
erase_last-eq-without i [] d = refl
erase_last-eq-without i (o ∷ os) d =
    ground (arith, erase_last-eq-without i os d.1, without-absent i os)

pub record IsIndexed (q : OrderQueue) : Type 0 where
  pub keys : (i : Ident) → q.index i ≡ has_id i q.orders
  pub distinct : Distinct q.orders

pub enqueue-IsIndexed :
    (o : Order) (q : OrderQueue)
    → IsIndexed q
    → has_id o.id q.orders ≡ false
    → IsIndexed (enqueue o q)
unfolding enqueue has_id
enqueue-IsIndexed o q v fresh = record {
  keys = λ i. ground (arith, v.keys i, has_id-append i q.orders (o ∷ []));
  distinct = Distinct-snoc o q.orders v.distinct fresh;
}

dequeue_from-IsIndexed :
    (os : List Order) (q : OrderQueue)
    → ((i : Ident) → q.index i ≡ has_id i os)
    → Distinct os
    → q.orders ≡ os
    → IsIndexed (dequeue_from os q).1
unfolding dequeue_from has_id
dequeue_from-IsIndexed [] q keys d e = record {
  keys = λ i. ground (arith, keys i);
  distinct = ground arith;
}
dequeue_from-IsIndexed (o ∷ os) q keys d e = record {
  keys = λ i. ground (arith, keys i);
  distinct = d.1;
}

pub dequeue-IsIndexed : (q : OrderQueue) → IsIndexed q → IsIndexed (dequeue q).1
unfolding dequeue
dequeue-IsIndexed q v = dequeue_from-IsIndexed q.orders q v.keys v.distinct refl

pub remove-IsIndexed : (i : Ident) (q : OrderQueue) → IsIndexed q → IsIndexed (remove i q).1
unfolding remove
remove-IsIndexed i q v = elim (Bool-cases (q.index i)) [
  | inl hit ↦ rw hit (record {
    keys = λ j.
        ground (
          arith,
          v.keys j,
          has_id-without i j q.orders,
          erase_last-eq-without i q.orders v.distinct,
        );
    distinct =
        rw (erase_last-eq-without i q.orders v.distinct) (Distinct-without i q.orders v.distinct);
  })
  | inr miss ↦ rw miss v
]

-- What `remove` reports and leaves.
pub remove_lem :
    (i : Ident) (q : OrderQueue)
    → IsIndexed q
    → ((remove i q).0 ≡ has_id i q.orders) × ((remove i q).1.orders ≡ without i q.orders)
unfolding remove
remove_lem i q v =
    ground (arith, v.keys i, erase_last-eq-without i q.orders v.distinct, without-absent i q.orders)

-- The calls of a client, and what they do to the queue and to a plain list.
pub data QueueOp : Type 0 where
  enqueues : Order → QueueOp
  dequeues : QueueOp
  removes : Ident → QueueOp

unfoldable pub run : List QueueOp → OrderQueue → OrderQueue
run [] q = q
run (enqueues o ∷ ops) q = run ops (enqueue o q)
run (dequeues ∷ ops) q = run ops (dequeue q).1
run (removes i ∷ ops) q = run ops (remove i q).1

abbrev pub rest_of {ℓ} : {A : Type ℓ} → List A → List A
rest_of [] = []
rest_of (x ∷ xs) = xs

unfoldable pub run_list : List QueueOp → List Order → List Order
run_list [] os = os
run_list (enqueues o ∷ ops) os = run_list ops (os ++ o ∷ [])
run_list (dequeues ∷ ops) os = run_list ops (rest_of os)
run_list (removes i ∷ ops) os = run_list ops (without i os)

-- Each order that is enqueued has an identifier that is not in the queue.
abbrev pub IsFresh : List QueueOp → List Order → Type 0
IsFresh [] os = Unit
IsFresh (enqueues o ∷ ops) os = (has_id o.id os ≡ false) × IsFresh ops (os ++ o ∷ [])
IsFresh (dequeues ∷ ops) os = IsFresh ops (rest_of os)
IsFresh (removes i ∷ ops) os = IsFresh ops (without i os)

pub orders-dequeue : (q : OrderQueue) → (dequeue q).1.orders ≡ rest_of q.orders
unfolding dequeue dequeue_from
orders-dequeue q = ground arith

orders-enqueue : (o : Order) (q : OrderQueue) → (enqueue o q).orders ≡ q.orders ++ o ∷ []
unfolding enqueue
orders-enqueue o q = refl

-- Any sequence of calls that enqueues fresh identifiers keeps the index of the queue true to its
-- list and the identifiers distinct, and leaves the orders that a plain list would hold: enqueue
-- at the back, dequeue at the front, remove by identifier.
pub run-Refines :
    (ops : List QueueOp) (q : OrderQueue) (os : List Order)
    → IsIndexed q
    → q.orders ≡ os
    → IsFresh ops os
    → IsIndexed (run ops q) × ((run ops q).orders ≡ run_list ops os)
unfolding run run_list
run-Refines [] q os v e f = (v, e)
run-Refines (enqueues o ∷ ops) q os v e f =
    run-Refines ops (enqueue o q) (os ++ o ∷ []) (enqueue-IsIndexed o q v (rw e f.0))
      (orders-enqueue o q ∙ ap (λ t. t ++ o ∷ []) e) f.1
run-Refines (dequeues ∷ ops) q os v e f =
    run-Refines ops (dequeue q).1 (rest_of os) (dequeue-IsIndexed q v)
      (orders-dequeue q ∙ ap rest_of e) f
run-Refines (removes i ∷ ops) q os v e f =
    run-Refines ops (remove i q).1 (without i os) (remove-IsIndexed i q v)
      ((remove_lem i q v).1 ∙ ap (without i) e) f
