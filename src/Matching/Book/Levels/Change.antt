-- ===== src/Matching/Book/Levels/Change.antt =====
-- The levels of a side when its best order is taken off or written to, and when an order is
-- cancelled.
use truth_market.Base.{
  ◌<◌, ◌≡◌, refl, sym, ap, subst, ◌∙◌, true, false, some, List, [], ◌∷◌, ◌++◌, arith, ◌==◌, length,
  All, Bool-cases, inl, inr,
}
use truth_market.Domain.{Ident, Price, OrderSide, Order}
use truth_market.Matching.Queue.{dequeue, len, peek, first, has_id}
use truth_market.Matching.Queue.Laws.{
  IsIndexed, Distinct, rest_of, orders-dequeue, dequeue-IsIndexed,
}
use truth_market.Matching.Book.{
  PriceQueue, ahead, best, dequeue_best, set_first, set_best, keep_level, orders_of,
}
use truth_market.Matching.Book.Levels.{Leads, Leads-trans, Rests, IsLevel, IsSide}

-- The best order of a side is the first in the list of its orders.
pub best-first :
    (s : OrderSide) (ls : List PriceQueue) → All (IsLevel s) ls → best ls ≡ first (orders_of ls)
unfolding best orders_of peek
best-first s [] v = refl
best-first s (l ∷ ls) v = first-append l.queue.orders (orders_of ls) v.0.nonempty
  where
    first-append : (xs ys : List Order) → 0 < length xs → first xs ≡ first (xs ++ ys)
    first-append [] ys h = absurd (omega arith)
    first-append (x ∷ xs) ys h = refl

first-All : (P : Order → Type 0) (x : Order) (xs : List Order) → first xs ≡ some x → All P xs → P x
first-All P x [] f h = cc
first-All P x (y ∷ xs) f h = subst P (cc) h.0

pub orders_of-cons :
    (l : PriceQueue) (ls : List PriceQueue) → orders_of (l ∷ ls) ≡ l.queue.orders ++ orders_of ls
unfolding orders_of
orders_of-cons l ls = refl

empty_of_length : (xs : List Order) → length xs ≡ 0 → xs ≡ []
empty_of_length [] h = refl
empty_of_length (x ∷ xs) h = absurd (omega arith)

-- What `keep_level` gives for a level that has lost an order, before levels that are in order.
pub record IsKept (s : OrderSide) (l : PriceQueue) (ls ms : List PriceQueue) : Type 0 where
  pub side : IsSide s ms
  pub orders : orders_of ms ≡ l.queue.orders ++ orders_of ls
  pub leads : (p : Price) → ahead s p l.price ≡ true → Leads s p ms

pub keep_level-IsKept :
    (s : OrderSide) (l : PriceQueue) (ls : List PriceQueue)
    → IsIndexed l.queue
    → All (Rests s l.price) l.queue.orders
    → IsSide s ls
    → Leads s l.price ls
    → IsKept s l ls (keep_level l ls)
unfolding keep_level len
keep_level-IsKept s l ls i r v h = elim (Bool-cases (length l.queue.orders == 0)) [
  | inl z ↦ rw z (record {
    side = v;
    orders = sym (ap (λ t. t ++ orders_of ls) (empty_of_length l.queue.orders (ground arith)));
    leads = λ p a. Leads-trans s p l.price ls a h;
  })
  | inr nz ↦ rw nz (record {
    side = ((record { indexed = i; nonempty = ground arith; resting = r }, v.0), (h, v.1));
    orders = orders_of-cons l ls;
    leads = λ p a. a;
  })
]

All-rest : (P : Order → Type 0) (xs : List Order) → All P xs → All P (rest_of xs)
All-rest P [] h = tt
All-rest P (x ∷ xs) h = h.1

rest-append : (xs ys : List Order) → 0 < length xs → rest_of xs ++ ys ≡ rest_of (xs ++ ys)
rest-append [] ys h = absurd (omega arith)
rest-append (x ∷ xs) ys h = refl

-- Taking the best order off leaves a side, with the first of its orders gone.
pub dequeue_best_lem :
    (s : OrderSide) (ls : List PriceQueue)
    → IsSide s ls
    → IsSide s (dequeue_best ls) × (orders_of (dequeue_best ls) ≡ rest_of (orders_of ls))
unfolding dequeue_best orders_of
dequeue_best_lem s [] v = (v, refl)
dequeue_best_lem s (l ∷ ls) v =
    let kept =
      keep_level-IsKept s (record l { queue = (dequeue l.queue).1 }) ls
        (dequeue-IsIndexed l.queue v.0.0.indexed)
        (rw orders-dequeue (All-rest _ l.queue.orders v.0.0.resting)) (v.0.1, v.1.1) v.1.0 in
    (
      kept.side,
      kept.orders
          ∙ ap (λ t. t ++ orders_of ls) (orders-dequeue l.queue)
          ∙ rest-append l.queue.orders (orders_of ls) v.0.0.nonempty,
    )

pub best-set_best :
    (o x : Order) (ls : List PriceQueue) → best ls ≡ some x → best (set_best o ls) ≡ some o
unfolding best set_best peek
best-set_best o x [] b = cc
best-set_best o x (l ∷ ls) b = ground arith

-- The same when the order was written to before, under its own identifier.
pub dequeue_best-set_best :
    (s : OrderSide) (o x : Order) (ls : List PriceQueue)
    → IsSide s ls
    → best ls ≡ some x
    → o.id ≡ x.id
    → dequeue_best (set_best o ls) ≡ dequeue_best ls
unfolding dequeue_best set_best best peek dequeue
dequeue_best-set_best s o x [] v b e = refl
dequeue_best-set_best s o x (l ∷ ls) v b e = ground arith

All-set_first :
    (P : Order → Type 0) (o : Order) (xs : List Order) → All P xs → P o → All P (set_first o xs)
All-set_first P o [] h p = tt
All-set_first P o (x ∷ xs) h p = (p, h.1)

has_id-set_first :
    (i : Ident) (o x : Order) (xs : List Order)
    → first xs ≡ some x
    → o.id ≡ x.id
    → has_id i (set_first o xs) ≡ has_id i xs
unfolding has_id
has_id-set_first i o x [] f e = refl
has_id-set_first i o x (y ∷ xs) f e = ground arith

Distinct-set_first :
    (o x : Order) (xs : List Order)
    → first xs ≡ some x
    → o.id ≡ x.id
    → Distinct xs
    → Distinct (set_first o xs)
Distinct-set_first o x [] f e d = tt
Distinct-set_first o x (y ∷ xs) f e d = (subst (λ i. has_id i xs ≡ false) (sym e) (cc), d.1)

length-set_first : (o : Order) (xs : List Order) → length (set_first o xs) ≡ length xs
length-set_first o [] = refl
length-set_first o (x ∷ xs) = refl

set_first-append :
    (o : Order) (xs ys : List Order) → 0 < length xs → set_first o xs ++ ys ≡ set_first o (xs ++ ys)
set_first-append o [] ys h = absurd (omega arith)
set_first-append o (x ∷ xs) ys h = refl

-- Writing to the best order, when it keeps its identifier and may go on resting where it is.
pub set_best_lem :
    (s : OrderSide) (o x : Order) (ls : List PriceQueue)
    → IsSide s ls
    → best ls ≡ some x
    → o.id ≡ x.id
    → ((p : Price) → Rests s p x → Rests s p o)
    → IsSide s (set_best o ls) × (orders_of (set_best o ls) ≡ set_first o (orders_of ls))
unfolding set_best orders_of best peek
set_best_lem s o x [] v b e k = (v, refl)
set_best_lem s o x (l ∷ ls) v b e k = (
  (
    (
      record {
        indexed = record {
          keys = λ i. v.0.0.indexed.keys i ∙ sym (has_id-set_first i o x l.queue.orders b e);
          distinct = Distinct-set_first o x l.queue.orders b e v.0.0.indexed.distinct;
        };
        nonempty = rw length-set_first v.0.0.nonempty;
        resting =
            All-set_first _ o l.queue.orders v.0.0.resting
              (k l.price (first-All _ x l.queue.orders b v.0.0.resting));
      },
      v.0.1,
    ),
    v.1,
  ),
  set_first-append o l.queue.orders (orders_of ls) v.0.0.nonempty,
)
