-- ===== src/Matching/Queue.antt =====
-- services/trading-svc/internal/matching/order_queue.go. The doubly linked list is the list of its
-- values, front first. `index` has a key for each identifier that the Go map has; the element that
-- it points at is always the last one in the list with that identifier, since a key is written by
-- Enqueue and deleted by every removal, so it is found by `erase_last`.
pub mod Laws
use truth_market.Base.{
  ℕ, Bool, true, false, ◌||◌, Option, none, some, List, [], ◌∷◌, ◌++◌, ◌==◌, if◌then◌else◌, length,
}
use truth_market.Base.Maps.{update}
use truth_market.Domain.{Ident, Order}

pub record OrderQueue : Type 0 where
  pub orders : List Order
  pub index : Ident → Bool

unfoldable pub has_id : Ident → List Order → Bool
has_id i [] = false
has_id i (o ∷ os) = o.id == i || has_id i os

-- The list with the last order of that identifier taken out.
unfoldable pub erase_last : Ident → List Order → List Order
unfolding has_id
erase_last i [] = []
erase_last i (o ∷ os) =
    let rest = o ∷ erase_last i os in if has_id i os then rest else if o.id == i then os else rest

unfoldable pub new_order_queue : OrderQueue
new_order_queue = record { orders = []; index = λ _. false }

unfoldable pub enqueue : Order → OrderQueue → OrderQueue
enqueue o q = record { orders = q.orders ++ o ∷ []; index = update o.id true q.index }

pub dequeue_from : List Order → OrderQueue → Option Order × OrderQueue
dequeue_from [] q = (none, q)
dequeue_from (o ∷ os) q = (some o, record { orders = os; index = update o.id false q.index })

-- The order at the front, if any, and the queue without it.
unfoldable pub dequeue : OrderQueue → Option Order × OrderQueue
unfolding dequeue_from
dequeue q = dequeue_from q.orders q

abbrev pub first {ℓ} : {A : Type ℓ} → List A → Option A
first [] = none
first (x ∷ xs) = some x

unfoldable pub peek : OrderQueue → Option Order
peek q = first q.orders

unfoldable pub remove : Ident → OrderQueue → Bool × OrderQueue
unfolding erase_last
remove i q =
    if q.index i
    then (true, record { orders = erase_last i q.orders; index = update i false q.index })
    else (false, q)

unfoldable pub len : OrderQueue → ℕ
len q = length q.orders
