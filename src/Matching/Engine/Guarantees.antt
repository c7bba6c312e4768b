-- ===== src/Matching/Engine/Guarantees.antt =====
-- What a call of matchOrder guarantees of its trades, its taker and the book that it leaves.
use truth_market.Base.{
  ℕ, ◌<◌, ◌≡◌, refl, sym, ap, subst, ◌∙◌, ◌⊎◌, true, none, some, List, [], ◌∷◌, ◌++◌, arith, ◌==◌,
  length, All, All-append, All-map, Bool-cases, Option-cases, inl, inr,
}
use truth_market.Base.Int.{◌≤ℤ◌}
use truth_market.Domain.{Ident, Price, zero_dec, OrderSide, buy, sell, Order, remaining_qty}
use truth_market.Matching.Queue.{first}
use truth_market.Matching.Book.{PriceQueue, Orderbook, orders_of, ahead}
use truth_market.Matching.Book.Levels.{Leads, Rests, IsSide}
use truth_market.Matching.Book.Levels.Insert.{insert_order}
use truth_market.Matching.Book.Invariant.{IsBook, View, view, add_to_view}
use truth_market.Matching.Engine.{Matching, match_order, apart, is_done, fill_by}
use truth_market.Matching.Engine.Opposite.{opposite, opposite_of}
use truth_market.Matching.Engine.Refine.{opposite_of-with}
use truth_market.Matching.Engine.Place.{
  walk, matched_view, add_all_to_view, match_order-walk, IsLive-opposite, loop-Ends, looped,
}
use truth_market.Matching.Engine.Walk.{
  total_qty, IsTradeOf, fill-Fills, fill-Trades, fill-WithinQuantity,
}
use truth_market.Matching.Engine.Walk.Partition.{Uncrossed, fill-IsComplete, fill-SkipsOwn}

-- A taker that does not cross a price does not cross a worse one.
apart-worse :
    (s : OrderSide) (t p q : Price)
    → apart s t p ≡ true
    → ahead (opposite s) p q ≡ true
    → apart s t q ≡ true
apart-worse buy t p q a h = ground arith
apart-worse sell t p q a h = ground arith

module _ (s : OrderSide) (t : Price) where
  abbrev Apart : Order → Type 0
  Apart o = apart s t o.price ≡ true

  Apart-level :
      (p : Price) (xs : List Order)
      → All (Rests (opposite s) p) xs
      → apart s t p ≡ true
      → All Apart xs
  Apart-level p [] r a = tt
  Apart-level p (x ∷ xs) r a =
      (subst (λ q. apart s t q ≡ true) (sym r.0.at_level) a, Apart-level p xs r.1 a)

  Apart-levels :
      (p : Price) (ls : List PriceQueue)
      → apart s t p ≡ true
      → Leads (opposite s) p ls
      → IsSide (opposite s) ls
      → All Apart (orders_of ls)
  unfolding orders_of
  Apart-levels p [] a h v = tt
  Apart-levels p (l ∷ ls) a h v =
      let b = apart-worse s t p l.price a h in
      All-append Apart l.queue.orders (orders_of ls) (Apart-level l.price _ v.0.0.resting b)
        (Apart-levels l.price ls b v.1.0 (v.0.1, v.1.1))

  first_price :
      (x : Order) (p : Price) (xs ys : List Order)
      → All (Rests (opposite s) p) xs
      → 0 < length xs
      → first (xs ++ ys) ≡ some x
      → x.price ≡ p
  first_price x p [] ys r h f = absurd (omega arith)
  first_price x p (y ∷ xs) ys r h f =
      let e : y ≡ x = cc in ap (λ (z : Order). z.price) (sym e) ∙ r.0.at_level

  -- If the best order of a side does not cross, none does.
  Apart-side :
      (x : Order) (ls : List PriceQueue)
      → IsSide (opposite s) ls
      → first (orders_of ls) ≡ some x
      → Apart x
      → All Apart (orders_of ls)
  unfolding orders_of
  Apart-side x [] v f a = tt
  Apart-side x (l ∷ ls) v f a =
      let e = first_price x l.price l.queue.orders (orders_of ls) v.0.0.resting v.0.0.nonempty f in
      let b = subst (λ q. apart s t q ≡ true) e a in
      All-append Apart l.queue.orders (orders_of ls) (Apart-level l.price _ v.0.0.resting b)
        (Apart-levels l.price ls b v.1.0 (v.0.1, v.1.1))

All-insert_order :
    (P : Order → Type 0) (s : OrderSide) (o : Order) (xs : List Order)
    → P o
    → All P xs
    → All P (insert_order s o xs)
unfolding insert_order
All-insert_order P s o [] p h = (p, tt)
All-insert_order P s o (x ∷ xs) p h = elim (Bool-cases (ahead s o.price x.price)) [
  | inl e ↦ rw e (p, h)
  | inr e ↦ rw e (h.0, All-insert_order P s o xs p h.1)
]

All-add :
    (P : Order → Type 0) (s r : OrderSide) (o : Order) (v : View)
    → P o
    → All P (opposite_of s v)
    → All P (opposite_of s (add_to_view r o v))
All-add P buy buy o v p h = h
All-add P buy sell o v p h = All-insert_order P sell o v.asks p h
All-add P sell buy o v p h = All-insert_order P buy o v.bids p h
All-add P sell sell o v p h = h

All-add_every :
    (P : Order → Type 0) (s : OrderSide) (os : List Order) (v : View)
    → All P os
    → All P (opposite_of s v)
    → All P (opposite_of s (add_all_to_view os v))
All-add_every P s [] v a h = h
All-add_every P s (o ∷ os) v a h =
    All-add_every P s os (add_to_view o.side o v) a.1 (All-add P s o.side o v a.0 h)

first-none : (xs : List Order) → first xs ≡ none → xs ≡ []
first-none [] e = refl
first-none (x ∷ xs) e = cc

-- An order that a taker cannot trade with: the prices do not cross, or it is the taker's own.
abbrev pub IsUntradable : Order → Order → Type 0
IsUntradable t o = (apart t.side t.price o.price ≡ true) ⊎ ((t.user_id == o.user_id) ≡ true)

Apart-book :
    (s : OrderSide) (t : Price) (x : Order) (ob : Orderbook)
    → IsBook ob
    → first (opposite_of s (view ob)) ≡ some x
    → Apart s t x
    → All (Apart s t) (opposite_of s (view ob))
Apart-book buy t x ob v f a = Apart-side buy t x ob.asks v.asks f a
Apart-book sell t x ob v f a = Apart-side sell t x ob.bids v.bids f a

-- What a call of matchOrder ends with.
pub record Guarantees (t : Order) (m : Matching) : Type 0 where
  pub fills : m.taker ≡ fill_by (total_qty m.trades) t
  pub within : zero_dec ≤ℤ remaining_qty m.taker
  pub sound : All (IsTradeOf t) m.trades
  pub complete : (is_done m.taker ≡ true) ⊎ All (IsUntradable t) (opposite_of t.side (view m.book))

module _ (uuid : ℕ → Ident) (t : Order) (ob : Orderbook) (v : IsBook ob) where
  Apart-left :
      Uncrossed t (first (walk uuid t ob).left) → All (Apart t.side t.price) (walk uuid t ob).left
  Apart-left u = elim (Option-cases (first (walk uuid t ob).left)) [
    | inl e ↦ subst (All (Apart t.side t.price)) (sym (first-none _ e)) tt
    | inr (x, e) ↦
        let ends = loop-Ends uuid t ob v in
        let q =
          ap (opposite_of t.side) ends.book.1
          ∙ opposite_of-with t.side (view ob) (walk uuid t ob).left in
        subst (All (Apart t.side t.price)) q (
          Apart-book t.side t.price x (looped uuid t ob).book ends.book.0 (ap first q ∙ e)
            (subst (Uncrossed t) e u))
  ]

  walk_complete :
      (is_done (walk uuid t ob).taker ≡ true)
      ⊎ All (IsUntradable t) (opposite_of t.side (matched_view uuid t ob))
  walk_complete = elim (fill-IsComplete uuid 0 t (opposite_of t.side (view ob))) [
    | inl d ↦ inl d
    | inr u ↦ inr (
        All-add_every (IsUntradable t) t.side (walk uuid t ob).skipped _
          (All-map _ (IsUntradable t) (λ o h. inr h.0) _
            (fill-SkipsOwn uuid 0 t (opposite_of t.side (view ob))))
          (subst (All (IsUntradable t))
            (sym (opposite_of-with t.side (view ob) (walk uuid t ob).left))
            (All-map _ (IsUntradable t) (λ o h. inl h) _ (Apart-left u))))
  ]

  -- On a book that meets its invariant and for an order that is not overfilled: the order's filled
  -- quantity grows by exactly what its trades amount to and stays within its quantity; each trade
  -- is between two different users, of a positive quantity and at a price that the order accepts;
  -- and at the end the order is filled, or no order of another user on the opposite side crosses it.
  pub match_order-Guarantees : zero_dec ≤ℤ remaining_qty t → Guarantees t (match_order uuid t ob)
  match_order-Guarantees h =
      let (et, es, became) = match_order-walk uuid t ob v in
      record {
        fills =
            et
            ∙ fill-Fills uuid 0 t (opposite_of t.side (view ob))
            ∙ ap (λ ts. fill_by (total_qty ts) t) (sym es);
        within =
            subst {A = Order} (λ o. zero_dec ≤ℤ remaining_qty o) (sym et)
              (fill-WithinQuantity uuid 0 t (opposite_of t.side (view ob)) h);
        sound =
            subst (All (IsTradeOf t)) (sym es)
              (fill-Trades uuid 0 t (opposite_of t.side (view ob)) (IsLive-opposite t.side ob v));
        complete =
            subst {A = Order}
              (λ o.
                (is_done o ≡ true)
                ⊎ All (IsUntradable t) (opposite_of t.side (view (match_order uuid t ob).book)))
              (sym et)
              (subst
                (λ w.
                  (is_done (walk uuid t ob).taker ≡ true)
                  ⊎ All (IsUntradable t) (opposite_of t.side w))
                (sym became.1) walk_complete);
      }
