-- ===== src/Matching/Book/Levels/Insert.antt =====
-- addToBids and addToAsks: the binary search and the insertion at its index against a walk over the
-- levels, and against the insertion into the list of the side's orders.
use truth_market.Base.{
  ℕ, zero, suc, ◌<◌, ◌≡◌, refl, sym, ap, subst, ◌∙◌, Bool, true, false, List, [], ◌∷◌, ◌++◌,
  append_assoc, arith, if◌then◌else◌, length, length-append, All, All-append, Bool-cases, inl, inr,
}
use truth_market.Base.Int.{eqb_ℤ}
use truth_market.Domain.{Price, OrderSide, Order}
use truth_market.Matching.Queue.{OrderQueue, enqueue, new_order_queue, has_id}
use truth_market.Matching.Queue.Laws.{enqueue-IsIndexed, has_id-append}
use truth_market.Matching.Book.{PriceQueue, ahead, new_level, place_at, add_to_levels, orders_of}
use truth_market.Matching.Book.Levels.{
  ahead_ne_sym, ahead_irrefl, ahead_asymm, ahead_total, eqb_ℤ→eq, Leads, IsSorted, Rests, IsLevel,
  IsSide, first_past, sort_search-first_past,
}

-- The insertion by a walk from the best level.
pub place : OrderSide → Order → List PriceQueue → List PriceQueue
unfolding new_level
place s o [] = new_level o ∷ []
place s o (l ∷ ls) =
    if eqb_ℤ l.price o.price
    then record l { queue = enqueue o l.queue } ∷ ls
    else if ahead s o.price l.price
    then new_level o ∷ l ∷ ls
    else l ∷ place s o ls

place_cases {ℓ} :
    (P : List PriceQueue → Type ℓ) (s : OrderSide) (o : Order) (l : PriceQueue)
    (ls : List PriceQueue)
    → (eqb_ℤ l.price o.price ≡ true → P (record l { queue = enqueue o l.queue } ∷ ls))
    → (ahead s o.price l.price ≡ true → P (new_level o ∷ l ∷ ls))
    → (ahead s l.price o.price ≡ true → P (l ∷ place s o ls))
    → P (place s o (l ∷ ls))
unfolding place
place_cases P s o l ls hit front later = elim (Bool-cases (eqb_ℤ l.price o.price)) [
  | inl e ↦ rw e (hit e)
  | inr ne ↦ elim (Bool-cases (ahead s o.price l.price)) [
    | inl a ↦ rw (ne, a) (front a)
    | inr b ↦ rw (ne, b) (later (ahead_total s l.price o.price b ne))
  ]
]

place_at-zero : (o : Order) (ls : List PriceQueue) → place_at o ls 0 ≡ new_level o ∷ ls
unfolding place_at
place_at-zero o ls = refl

-- Past a level that is not at the price, the place found moves along with the list.
place_at-cons :
    (o : Order) (l : PriceQueue) (ls : List PriceQueue) (n : ℕ)
    → eqb_ℤ l.price o.price ≡ false
    → place_at o (l ∷ ls) (suc n) ≡ l ∷ place_at o ls n
unfolding place_at
place_at-cons o l ls zero e = rw e
place_at-cons o l ls (suc k) e = ground arith

first_past-Leads :
    (s : OrderSide) (p : Price) (ls : List PriceQueue) → Leads s p ls → first_past s p ls ≡ 0
unfolding first_past
first_past-Leads s p [] h = refl
first_past-Leads s p (l ∷ ls) h = rw h

place_at-hit :
    (o : Order) (l : PriceQueue) (ls : List PriceQueue) (n : ℕ)
    → eqb_ℤ l.price o.price ≡ true
    → n ≡ 0
    → place_at o (l ∷ ls) (suc n) ≡ record l { queue = enqueue o l.queue } ∷ ls
unfolding place_at
place_at-hit o l ls n e z = rw (z, e)

place_at-place :
    (s : OrderSide) (o : Order) (ls : List PriceQueue)
    → IsSorted s ls
    → place_at o ls (first_past s o.price ls) ≡ place s o ls
unfolding place first_past
place_at-place s o [] h = place_at-zero o []
place_at-place s o (l ∷ ls) h = elim (Bool-cases (ahead s o.price l.price)) [
  | inl e ↦ rw (e, ahead_ne_sym s o.price l.price e) (place_at-zero o (l ∷ ls))
  | inr e ↦ elim (Bool-cases (eqb_ℤ l.price o.price)) [
    | inl q ↦
        rw (e, q)
          (place_at-hit o l ls _ q
            (first_past-Leads s o.price ls (subst (λ p. Leads s p ls) (eqb_ℤ→eq _ _ q) h.0)))
    | inr ne ↦
        rw (e, ne)
          (place_at-cons o l ls (first_past s o.price ls) ne
            ∙ ap (λ t. l ∷ t) (place_at-place s o ls h.1))
  ]
]

-- On a sorted side the binary search puts an order where the walk puts it.
pub add_to_levels-place :
    (s : OrderSide) (o : Order) (ls : List PriceQueue)
    → IsSorted s ls
    → add_to_levels s o ls ≡ place s o ls
unfolding add_to_levels
add_to_levels-place s o ls h =
    ap (place_at o ls) (sort_search-first_past s o.price ls h) ∙ place_at-place s o ls h

new_level-IsLevel : (s : OrderSide) (o : Order) → Rests s o.price o → IsLevel s (new_level o)
unfolding new_level enqueue new_order_queue has_id
new_level-IsLevel s o r = record {
  indexed = enqueue-IsIndexed o new_order_queue (record { keys = λ i. refl; distinct = tt }) refl;
  nonempty = omega arith;
  resting = (r, tt);
}

enqueue-IsLevel :
    (s : OrderSide) (o : Order) (l : PriceQueue)
    → l.price ≡ o.price
    → Rests s o.price o
    → has_id o.id l.queue.orders ≡ false
    → IsLevel s l
    → IsLevel s (record l { queue = enqueue o l.queue })
unfolding enqueue
enqueue-IsLevel s o l e r f v = record {
  indexed = enqueue-IsIndexed o l.queue v.indexed f;
  nonempty = omega (arith, length-append {0} l.queue.orders (o ∷ []));
  resting =
      All-append (Rests s l.price) l.queue.orders (o ∷ []) v.resting
        (record { on_side = r.on_side; at_level = rw (e, r.at_level); live = r.live }, tt);
}

Leads-place :
    (s : OrderSide) (p : Price) (o : Order) (ls : List PriceQueue)
    → Leads s p ls
    → ahead s p o.price ≡ true
    → Leads s p (place s o ls)
unfolding place new_level
Leads-place s p o [] h a = a
Leads-place s p o (l ∷ ls) h a = place_cases (Leads s p) s o l ls (λ e. h) (λ b. a) (λ b. h)

place_nil-All : (s : OrderSide) (o : Order) → Rests s o.price o → All (IsLevel s) (place s o [])
unfolding place
place_nil-All s o r = (new_level-IsLevel s o r, tt)

place_nil-IsSorted : (s : OrderSide) (o : Order) → IsSorted s (place s o [])
unfolding place
place_nil-IsSorted s o = (tt, tt)

new_level-Leads :
    (s : OrderSide) (o : Order) (l : PriceQueue) (ls : List PriceQueue)
    → ahead s o.price l.price ≡ true
    → Leads s (new_level o).price (l ∷ ls)
unfolding new_level
new_level-Leads s o l ls a = a

place-All :
    (s : OrderSide) (o : Order) (ls : List PriceQueue)
    → Rests s o.price o
    → has_id o.id (orders_of ls) ≡ false
    → All (IsLevel s) ls
    → All (IsLevel s) (place s o ls)
unfolding orders_of
place-All s o [] r f v = place_nil-All s o r
place-All s o (l ∷ ls) r f v =
    let both = has_id-append o.id l.queue.orders (orders_of ls) in
    place_cases (All (IsLevel s)) s o l ls
      (λ e. (enqueue-IsLevel s o l (eqb_ℤ→eq _ _ e) r (ground (arith, both)) v.0, v.1))
      (λ a. (new_level-IsLevel s o r, v))
      (λ b. (v.0, place-All s o ls r (ground (arith, both)) v.1))

place-IsSorted :
    (s : OrderSide) (o : Order) (ls : List PriceQueue) → IsSorted s ls → IsSorted s (place s o ls)
place-IsSorted s o [] h = place_nil-IsSorted s o
place-IsSorted s o (l ∷ ls) h =
    place_cases (IsSorted s) s o l ls (λ e. h) (λ a. (new_level-Leads s o l ls a, h))
      (λ b. (Leads-place s l.price o ls h.0 b, place-IsSorted s o ls h.1))

-- A side with a new order in it is a side: sorted, each level with its price, no level empty.
pub place-IsSide :
    (s : OrderSide) (o : Order) (ls : List PriceQueue)
    → Rests s o.price o
    → has_id o.id (orders_of ls) ≡ false
    → IsSide s ls
    → IsSide s (place s o ls)
place-IsSide s o ls r f v = (place-All s o ls r f v.0, place-IsSorted s o ls v.1)

-- Price-time priority on the list of the orders of a side: behind every order at a price that is
-- as good or better, before every order at a price that is worse.
unfoldable pub insert_order : OrderSide → Order → List Order → List Order
insert_order s o [] = o ∷ []
insert_order s o (x ∷ xs) = if ahead s o.price x.price then o ∷ x ∷ xs else x ∷ insert_order s o xs

ahead-at :
    (s : OrderSide) (r : Price) {p q : Price} {b : Bool} → p ≡ q → ahead s r q ≡ b → ahead s r p ≡ b
ahead-at s r e h = rw e h

insert_order-skip :
    (s : OrderSide) (o : Order) (p : Price) (xs ys : List Order)
    → All (Rests s p) xs
    → ahead s o.price p ≡ false
    → insert_order s o (xs ++ ys) ≡ xs ++ insert_order s o ys
unfolding insert_order
insert_order-skip s o p [] ys r h = refl
insert_order-skip s o p (x ∷ xs) ys r h =
    let b = ahead-at s o.price r.0.at_level h in
    rw b (ap (λ t. x ∷ t) (insert_order-skip s o p xs ys r.1 h))

insert_order-here :
    (s : OrderSide) (o : Order) (p : Price) (xs ys : List Order)
    → All (Rests s p) xs
    → 0 < length xs
    → ahead s o.price p ≡ true
    → insert_order s o (xs ++ ys) ≡ o ∷ xs ++ ys
unfolding insert_order
insert_order-here s o p [] ys r n h = absurd (omega arith)
insert_order-here s o p (x ∷ xs) ys r n h = let b = ahead-at s o.price r.0.at_level h in rw b

insert_order-nil : (s : OrderSide) (o : Order) → insert_order s o [] ≡ o ∷ []
unfolding insert_order
insert_order-nil s o = refl

insert_order-Leads :
    (s : OrderSide) (o : Order) (ls : List PriceQueue)
    → All (IsLevel s) ls
    → Leads s o.price ls
    → insert_order s o (orders_of ls) ≡ o ∷ orders_of ls
unfolding orders_of
insert_order-Leads s o [] v h = insert_order-nil s o
insert_order-Leads s o (l ∷ ls) v h =
    insert_order-here s o l.price l.queue.orders (orders_of ls) v.0.resting v.0.nonempty h

orders-enqueue : (o : Order) (q : OrderQueue) → (enqueue o q).orders ≡ q.orders ++ o ∷ []
unfolding enqueue
orders-enqueue o q = refl

orders-new_level : (o : Order) → (new_level o).queue.orders ≡ o ∷ []
unfolding new_level enqueue new_order_queue
orders-new_level o = refl

orders_of-place_nil : (s : OrderSide) (o : Order) → orders_of (place s o []) ≡ insert_order s o []
unfolding orders_of place new_level enqueue new_order_queue insert_order
orders_of-place_nil s o = refl

pub orders_of-place :
    (s : OrderSide) (o : Order) (ls : List PriceQueue)
    → IsSide s ls
    → orders_of (place s o ls) ≡ insert_order s o (orders_of ls)
unfolding orders_of
orders_of-place s o [] v = orders_of-place_nil s o
orders_of-place s o (l ∷ ls) v =
    let xs = l.queue.orders in
    place_cases (λ t. orders_of t ≡ insert_order s o (orders_of (l ∷ ls))) s o l ls
      (λ e.
        let p = eqb_ℤ→eq l.price o.price e in
        rw orders-enqueue (
          append_assoc xs (o ∷ []) (orders_of ls)
          ∙ sym (
              insert_order-skip s o l.price xs (orders_of ls) v.0.0.resting
                (rw p (ahead_irrefl s o.price))
              ∙ ap (λ t. xs ++ t)
                  (insert_order-Leads s o ls v.0.1 (subst (λ r. Leads s r ls) p v.1.0)))))
      (λ a.
        rw orders-new_level
          (sym (insert_order-here s o l.price xs (orders_of ls) v.0.0.resting v.0.0.nonempty a)))
      (λ b.
        ap (λ t. xs ++ t) (orders_of-place s o ls (v.0.1, v.1.1))
        ∙ sym (
            insert_order-skip s o l.price xs (orders_of ls) v.0.0.resting
              (ahead_asymm s l.price o.price b)))
