-- ===== src/Matching/Engine/Place.antt =====
-- Engine.PlaceOrder and Engine.CancelOrder on a book and on an engine.
use truth_market.Base.{
  ℕ, suc, ◌≡◌, refl, sym, ap, subst, ◌∙◌, true, false, ◌||◌, none, List, [], ◌∷◌, arith, ◌==◌,
  length, All, All-append, All-map, ==_refl,
}
use truth_market.Base.Int.{ℤ}
use truth_market.Domain.{Ident, OrderSide, buy, sell, Order}
use truth_market.Matching.Queue.{has_id}
use truth_market.Matching.Queue.Laws.{Distinct, has_id-append}
use truth_market.Matching.Book.{PriceQueue, Orderbook, orders_of, add_order}
use truth_market.Matching.Book.Levels.{Rests, IsLevel}
use truth_market.Matching.Book.Levels.Cancel.{Distinct-append_right, Distinct-append_apart}
use truth_market.Matching.Book.Invariant.{
  IsBook, View, view, all_of, add_to_view, has_id-insert_order,
}
use truth_market.Matching.Book.Invariant.Keep.{
  Becomes, add_order-Becomes, Distinct-append_left, Distinct-append_apart_right,
}
use truth_market.Matching.Engine.{
  Matching, opposite_orders, add_orders, start_matching, match_loop, match_order, match_step,
}
use truth_market.Matching.Engine.Opposite.{opposite_of, own_of, with_opposite, opposite_orders-view}
use truth_market.Matching.Engine.Priority.{Filled, fill}
use truth_market.Matching.Engine.Refine.{Ends}
use truth_market.Matching.Engine.Loop.{match_loop-Ends}
use truth_market.Matching.Engine.Walk.{IsLive}
use truth_market.Matching.Engine.Walk.Partition.{fill-All_skipped, fill-SkipsApart}

-- Orders added to a view one by one.
abbrev pub add_all_to_view : List Order → View → View
add_all_to_view [] v = v
add_all_to_view (o ∷ os) v = add_all_to_view os (add_to_view o.side o v)

pub has_id-add_to_view :
    (s : OrderSide) (o : Order) (i : Ident) (v : View)
    → has_id i (all_of (add_to_view s o v)) ≡ (o.id == i || has_id i (all_of v))
has_id-add_to_view buy o i v = ground (
  arith,
  has_id-append i (add_to_view buy o v).bids v.asks,
  has_id-append i v.bids v.asks,
  has_id-insert_order buy o i v.bids,
)
has_id-add_to_view sell o i v = ground (
  arith,
  has_id-append i v.bids (add_to_view sell o v).asks,
  has_id-append i v.bids v.asks,
  has_id-insert_order sell o i v.asks,
)

-- Orders that may be added to a view one by one.
abbrev AreNew : View → List Order → Type 0
AreNew v = All (λ o. has_id o.id (all_of v) ≡ false)

AreNew-add :
    (o : Order) (v : View) (os : List Order)
    → has_id o.id os ≡ false
    → AreNew v os
    → AreNew (add_to_view o.side o v) os
unfolding has_id
AreNew-add o v [] h a = tt
AreNew-add o v (x ∷ os) h a =
    (ground (arith, has_id-add_to_view o.side o x.id v), AreNew-add o v os (ground arith) a.1)

add_orders-Becomes :
    (os : List Order) (ob : Orderbook)
    → IsBook ob
    → All IsLive os
    → Distinct os
    → AreNew (view ob) os
    → Becomes (add_orders os ob) (add_all_to_view os (view ob))
unfolding add_orders
add_orders-Becomes [] ob v l d a = (v, refl)
add_orders-Becomes (o ∷ os) ob v l d a =
    let (v', e) = add_order-Becomes o ob v l.0 a.0 in
    let (w, f) =
      add_orders-Becomes os (add_order o ob) v' l.1 d.1
        (subst (λ t. AreNew t os) (sym e) (AreNew-add o (view ob) os d.0 a.1)) in
    (w, f ∙ ap (add_all_to_view os) e)

-- The orders of a side of a book are live.
IsLive-orders : (s : OrderSide) (xs : List Order) (p : ℤ) → All (Rests s p) xs → All IsLive xs
IsLive-orders s [] p r = tt
IsLive-orders s (x ∷ xs) p r = (r.0.live, IsLive-orders s xs p r.1)

IsLive-side :
    (s : OrderSide) (ls : List PriceQueue) → All (IsLevel s) ls → All IsLive (orders_of ls)
unfolding orders_of
IsLive-side s [] v = tt
IsLive-side s (l ∷ ls) v =
    All-append IsLive l.queue.orders (orders_of ls)
      (IsLive-orders s l.queue.orders l.price v.0.resting) (IsLive-side s ls v.1)

pub IsLive-opposite :
    (s : OrderSide) (ob : Orderbook) → IsBook ob → All IsLive (opposite_of s (view ob))
IsLive-opposite buy ob v = IsLive-side sell ob.asks v.asks.0
IsLive-opposite sell ob v = IsLive-side buy ob.bids v.bids.0

own_ids : (xs : List Order) → All (λ o. has_id o.id xs ≡ true) xs
unfolding has_id
own_ids [] = tt
own_ids (x ∷ xs) = (
  rw (==_refl x.id),
  All-map (λ o. has_id o.id xs ≡ true) (λ o. has_id o.id (x ∷ xs) ≡ true) (λ o h. ground (arith, h))
      xs (own_ids xs),
)

-- No order of the opposite side is on the taker's own side.
opposite-apart :
    (s : OrderSide) (ob : Orderbook)
    → IsBook ob
    → All (λ o. has_id o.id (own_of s (view ob)) ≡ false) (opposite_of s (view ob))
opposite-apart buy ob v =
    All-map _ _ (λ o h. Distinct-append_apart_right o.id _ _ v.distinct h) _ (own_ids _)
opposite-apart sell ob v =
    All-map _ _ (λ o h. Distinct-append_apart o.id _ _ v.distinct h) _ (own_ids _)

Distinct-opposite :
    (s : OrderSide) (ob : Orderbook) → IsBook ob → Distinct (opposite_of s (view ob))
Distinct-opposite buy ob v = Distinct-append_right (orders_of ob.bids) _ v.distinct
Distinct-opposite sell ob v = Distinct-append_left _ _ v.distinct

pub has_id-with_opposite :
    (s : OrderSide) (i : Ident) (os : List Order) (v : View)
    → has_id i (own_of s v) ≡ false
    → has_id i os ≡ false
    → has_id i (all_of (with_opposite s os v)) ≡ false
has_id-with_opposite buy i os v h k = ground (arith, has_id-append i v.bids os)
has_id-with_opposite sell i os v h k = ground (arith, has_id-append i os v.asks)

pub skipped_new :
    (s : OrderSide) (v : View) (os left : List Order)
    → All (λ o. has_id o.id (own_of s v) ≡ false) os
    → All (λ o. has_id o.id left ≡ false) os
    → AreNew (with_opposite s left v) os
skipped_new s v [] left a b = tt
skipped_new s v (o ∷ os) left a b =
    (has_id-with_opposite s o.id left v a.0 b.0, skipped_new s v os left a.1 b.1)

-- The walk of a call, and the two sides of the book after it, the skipped orders put back.
abbrev pub walk : (ℕ → Ident) → Order → Orderbook → Filled
walk uuid t ob = fill uuid 0 t (opposite_of t.side (view ob))

abbrev pub matched_view : (ℕ → Ident) → Order → Orderbook → View
matched_view uuid t ob =
    add_all_to_view (walk uuid t ob).skipped (with_opposite t.side (walk uuid t ob).left (view ob))

-- Where the loop of a call ends.
abbrev pub looped : (ℕ → Ident) → Order → Orderbook → Matching
looped uuid t ob = match_loop (suc (length (opposite_orders t.side ob))) uuid (start_matching t ob)

module _ (uuid : ℕ → Ident) (t : Order) (ob : Orderbook) (v : IsBook ob) where
  pub loop-Ends : Ends uuid (start_matching t ob) (walk uuid t ob) (looped uuid t ob)
  loop-Ends =
      match_loop-Ends uuid _ (start_matching t ob) (opposite_of t.side (view ob)) v refl
        (rw opposite_orders-view (omega arith))

  add_skipped :
      Becomes (add_orders (walk uuid t ob).skipped (looped uuid t ob).book) (matched_view uuid t ob)
  add_skipped =
      let x = loop-Ends in
      let os = opposite_of t.side (view ob) in
      let apart = fill-SkipsApart uuid 0 t os (Distinct-opposite t.side ob v) in
      let own = fill-All_skipped _ uuid 0 t os (opposite-apart t.side ob v) in
      let (w, e) =
        add_orders-Becomes (walk uuid t ob).skipped _ x.book.0
          (fill-All_skipped IsLive uuid 0 t os (IsLive-opposite t.side ob v)) apart.0
          (subst (λ u. AreNew u (walk uuid t ob).skipped) (sym x.book.1)
            (skipped_new t.side (view ob) (walk uuid t ob).skipped _ own apart.1)) in
      (w, e ∙ ap (add_all_to_view (walk uuid t ob).skipped) x.book.1)

  -- The loop of matchOrder ends by a `break`: its fuel does not run out.
  pub match_loop-stops : match_step uuid (looped uuid t ob) ≡ none
  match_loop-stops = loop-Ends.stopped

  -- On a book that meets its invariant, matchOrder makes the trades of the walk over the opposite
  -- side by price-time priority, leaves the taker as the walk leaves it, and the book with the
  -- walk's rest of the opposite side and the skipped orders put back, its invariant kept.
  pub match_order-walk :
      ((match_order uuid t ob).taker ≡ (walk uuid t ob).taker)
      × ((match_order uuid t ob).trades ≡ (walk uuid t ob).trades)
      × Becomes (match_order uuid t ob).book (matched_view uuid t ob)
  unfolding match_order
  match_order-walk =
      let x = loop-Ends in
      (
        x.taker,
        x.trades,
        subst (λ os. Becomes (add_orders os (looped uuid t ob).book) (matched_view uuid t ob))
            (sym x.skipped) add_skipped,
      )
