-- ===== src/Matching/Book/Levels/Cancel.antt =====
-- Orderbook.CancelOrder on the levels of one side.
use truth_market.Base.{
  ◌≡◌, refl, sym, ap, subst, ◌∙◌, true, false, none, some, List, [], ◌∷◌, ◌++◌, arith, ◌==◌,
  if◌then◌else◌, All, Bool-cases, inl, inr,
}
use truth_market.Domain.{Ident, Price, OrderSide, Order}
use truth_market.Matching.Queue.{remove, has_id}
use truth_market.Matching.Queue.Laws.{
  Distinct, without, remove-IsIndexed, remove_lem, has_id-append, without-append, without-absent,
}
use truth_market.Matching.Book.{
  PriceQueue, keep_level, tidy, behind, find_order, cancel_in, orders_of,
}
use truth_market.Matching.Book.Levels.{Leads, IsLevel, IsSide}
use truth_market.Matching.Book.Levels.Change.{keep_level-IsKept, orders_of-cons}

pub Distinct-append_right : (xs ys : List Order) → Distinct (xs ++ ys) → Distinct ys
Distinct-append_right [] ys d = d
Distinct-append_right (x ∷ xs) ys d = Distinct-append_right xs ys d.1

pub Distinct-append_apart :
    (i : Ident) (xs ys : List Order)
    → Distinct (xs ++ ys)
    → has_id i xs ≡ true
    → has_id i ys ≡ false
unfolding has_id
Distinct-append_apart i [] ys d h = cc
Distinct-append_apart i (x ∷ xs) ys d h =
    ground (arith, Distinct-append_apart i xs ys d.1, has_id-append x.id xs ys)

pub find_order-append :
    (i : Ident) (xs ys : List Order)
    → find_order i (xs ++ ys) ≡ (if has_id i xs then find_order i xs else find_order i ys)
unfolding has_id
find_order-append i [] ys = refl
find_order-append i (x ∷ xs) ys = ground (arith, find_order-append i xs ys)

pub find_order-has_id :
    (i : Ident) (xs : List Order) {o : Order} → find_order i xs ≡ some o → has_id i xs ≡ true
unfolding has_id
find_order-has_id i [] {o} h = cc
find_order-has_id i (x ∷ xs) {o} h = ground (arith, find_order-has_id i xs {o = o})

pub find_order-id : (i : Ident) (xs : List Order) {o : Order} → find_order i xs ≡ some o → o.id ≡ i
find_order-id i [] {o} h = cc
find_order-id i (x ∷ xs) {o} h = ground (arith, find_order-id i xs {o = o})

All-without : (P : Order → Type 0) (i : Ident) (xs : List Order) → All P xs → All P (without i xs)
unfolding without
All-without P i [] h = tt
All-without P i (x ∷ xs) h = elim (Bool-cases (x.id == i)) [
  | inl e ↦ rw e (All-without P i xs h.1)
  | inr e ↦ rw e (h.0, All-without P i xs h.1)
]

-- The side without the order.
pub record IsCancelled (s : OrderSide) (i : Ident) (ls ms : List PriceQueue) : Type 0 where
  pub side : IsSide s ms
  pub orders : orders_of ms ≡ without i (orders_of ls)
  pub leads : (p : Price) → Leads s p ls → Leads s p ms

cancel_in-first :
    (i : Ident) (l : PriceQueue) (ls : List PriceQueue)
    → (remove i l.queue).0 ≡ true
    → cancel_in i (l ∷ ls)
      ≡ tidy (find_order i l.queue.orders) (record l { queue = (remove i l.queue).1 }) ls
unfolding cancel_in
cancel_in-first i l ls h = rw h

cancel_in-later :
    (i : Ident) (l : PriceQueue) (ls : List PriceQueue)
    → (remove i l.queue).0 ≡ false
    → cancel_in i (l ∷ ls) ≡ behind l (cancel_in i ls)
unfolding cancel_in
cancel_in-later i l ls h = rw h

-- An identifier that a side does not have: nothing is found.
pub cancel_in-none :
    (s : OrderSide) (i : Ident) (ls : List PriceQueue)
    → All (IsLevel s) ls
    → has_id i (orders_of ls) ≡ false
    → cancel_in i ls ≡ none
cancel_in-none s i [] v h = unfold cancel_in in refl
cancel_in-none s i (l ∷ ls) v h =
    let both = has_id-append i l.queue.orders (orders_of ls) in
    let h' = subst (λ t. has_id i t ≡ false) (orders_of-cons l ls) h in
    cancel_in-later i l ls (ground (arith, remove_lem i l.queue v.0.indexed, both))
    ∙ ap (behind l) (cancel_in-none s i ls v.1 (ground (arith, both)))

-- The level that has the order.
cancel_in-hit :
    (s : OrderSide) (i : Ident) (o : Order) (l : PriceQueue) (ls : List PriceQueue)
    → IsSide s (l ∷ ls)
    → Distinct (l.queue.orders ++ orders_of ls)
    → has_id i l.queue.orders ≡ true
    → find_order i l.queue.orders ≡ some o
    → (ms : List PriceQueue) × (cancel_in i (l ∷ ls) ≡ some (o, ms)) × IsCancelled s i (l ∷ ls) ms
cancel_in-hit s i o l ls v d h f =
    let left = (remove_lem i l.queue v.0.0.indexed).1 in
    let rest = record l { queue = (remove i l.queue).1 } in
    let kept =
      keep_level-IsKept s rest ls (remove-IsIndexed i l.queue v.0.0.indexed)
        (rw left (All-without _ i l.queue.orders v.0.0.resting)) (v.0.1, v.1.1) v.1.0 in
    (
      keep_level rest ls,
      cancel_in-first i l ls ((remove_lem i l.queue v.0.0.indexed).0 ∙ h)
          ∙ ap (λ t. tidy t rest ls) f,
      record {
        side = kept.side;
        orders =
            kept.orders
            ∙ ap (λ t. t ++ orders_of ls) left
            ∙ ap (λ t. without i l.queue.orders ++ t)
                (sym (
                  without-absent i (orders_of ls)
                    (Distinct-append_apart i l.queue.orders (orders_of ls) d h)))
            ∙ sym (without-append i l.queue.orders (orders_of ls))
            ∙ ap (without i) (sym (orders_of-cons l ls));
        leads = kept.leads;
      },
    )

-- An order that a side has is found, and the side is left without it.
pub cancel_in-some :
    (s : OrderSide) (i : Ident) (o : Order) (ls : List PriceQueue)
    → IsSide s ls
    → Distinct (orders_of ls)
    → find_order i (orders_of ls) ≡ some o
    → (ms : List PriceQueue) × (cancel_in i ls ≡ some (o, ms)) × IsCancelled s i ls ms
unfolding orders_of
cancel_in-some s i o [] v d f = absurd (unfold orders_of in cc)
cancel_in-some s i o (l ∷ ls) v d f = elim (Bool-cases (has_id i l.queue.orders)) [
  | inl h ↦
      cancel_in-hit s i o l ls v d h
        (rw h at (sym (find_order-append i l.queue.orders (orders_of ls)) ∙ f))
  | inr h ↦
      let (ms, e, c) =
        cancel_in-some s i o ls (v.0.1, v.1.1)
          (Distinct-append_right l.queue.orders (orders_of ls) d)
          (rw h at (sym (find_order-append i l.queue.orders (orders_of ls)) ∙ f)) in
      (
        l ∷ ms,
        cancel_in-later i l ls ((remove_lem i l.queue v.0.0.indexed).0 ∙ h) ∙ ap (behind l) e,
        record {
          side = ((v.0.0, c.side.0), (c.leads l.price v.1.0, c.side.1));
          orders =
              ap (λ t. l.queue.orders ++ t) c.orders
              ∙ ap (λ t. t ++ without i (orders_of ls)) (sym (without-absent i l.queue.orders h))
              ∙ sym (without-append i l.queue.orders (orders_of ls));
          leads = λ p a. a;
        },
      )
]
