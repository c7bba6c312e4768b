-- ===== src/Matching/Book/Invariant/Write.antt =====
-- A write to the best order of a side, which the matching engine makes through its pointer.
use truth_market.Base.{◌≡◌, refl, sym, ◌∙◌, some, List, [], ◌∷◌, ◌++◌, arith}
use truth_market.Domain.{Ident, Price, buy, sell, Order}
use truth_market.Matching.Queue.{has_id, first}
use truth_market.Matching.Queue.Laws.{Distinct}
use truth_market.Matching.Book.{Orderbook, orders_of, best, set_first, set_best}
use truth_market.Matching.Book.Levels.{Rests}
use truth_market.Matching.Book.Levels.Change.{best-first, set_best_lem}
use truth_market.Matching.Book.Invariant.{IsBook, view}
use truth_market.Matching.Book.Invariant.Keep.{Becomes}

-- The same identifiers, in the same order.
data SameIds : List Order → List Order → Type 0 where
  none_left : SameIds [] []
  one_more :
      {x y : Order} {xs ys : List Order} → x.id ≡ y.id → SameIds xs ys → SameIds (x ∷ xs) (y ∷ ys)

SameIds-refl : (xs : List Order) → SameIds xs xs
SameIds-refl [] = none_left
SameIds-refl (x ∷ xs) = one_more refl (SameIds-refl xs)

SameIds-append :
    (zs : List Order) {xs ys : List Order} → SameIds xs ys → SameIds (zs ++ xs) (zs ++ ys)
SameIds-append [] s = s
SameIds-append (z ∷ zs) s = one_more refl (SameIds-append zs s)

SameIds-append_same :
    (zs : List Order) {xs ys : List Order} → SameIds xs ys → SameIds (xs ++ zs) (ys ++ zs)
SameIds-append_same zs none_left = SameIds-refl zs
SameIds-append_same zs (one_more e s) = one_more e (SameIds-append_same zs s)

SameIds-has_id : (i : Ident) {xs ys : List Order} → SameIds xs ys → has_id i xs ≡ has_id i ys
unfolding has_id
SameIds-has_id i none_left = refl
SameIds-has_id i (one_more e s) = ground (arith, SameIds-has_id i s)

SameIds-Distinct : {xs ys : List Order} → SameIds xs ys → Distinct xs → Distinct ys
SameIds-Distinct none_left d = d
SameIds-Distinct (one_more {x} {y} {xs} {ys} e s) d =
    (sym (SameIds-has_id y.id s) ∙ rw (← e) d.0, SameIds-Distinct s d.1)

SameIds-set_first :
    (o x : Order) (xs : List Order) → first xs ≡ some x → o.id ≡ x.id → SameIds xs (set_first o xs)
SameIds-set_first o x [] f e = none_left
SameIds-set_first o x (y ∷ xs) f e = one_more (ground arith) (SameIds-refl xs)

module _ (o x : Order) (ob : Orderbook) (v : IsBook ob) (same : o.id ≡ x.id) where
  pub set_best_bid-Becomes :
      best ob.bids ≡ some x
      → ((p : Price) → Rests buy p x → Rests buy p o)
      → Becomes
          (record ob { bids = set_best o ob.bids })
          (record (view ob) { bids = set_first o (orders_of ob.bids) })
  set_best_bid-Becomes b k =
      let (side, e) = set_best_lem buy o x ob.bids v.bids b same k in
      let ids =
        SameIds-set_first o x (orders_of ob.bids) (sym (best-first buy ob.bids v.bids.0) ∙ b)
          same in
      (
        record {
          bids = side;
          asks = v.asks;
          distinct =
              rw e (SameIds-Distinct (SameIds-append_same (orders_of ob.asks) ids) v.distinct);
          sides = λ i. rw e (v.sides i ∙ rw (SameIds-has_id i ids));
        },
        rw e,
      )

  pub set_best_ask-Becomes :
      best ob.asks ≡ some x
      → ((p : Price) → Rests sell p x → Rests sell p o)
      → Becomes
          (record ob { asks = set_best o ob.asks })
          (record (view ob) { asks = set_first o (orders_of ob.asks) })
  set_best_ask-Becomes b k =
      let (side, e) = set_best_lem sell o x ob.asks v.asks b same k in
      let ids =
        SameIds-set_first o x (orders_of ob.asks) (sym (best-first sell ob.asks v.asks.0) ∙ b)
          same in
      (
        record {
          bids = v.bids;
          asks = side;
          distinct = rw e (SameIds-Distinct (SameIds-append (orders_of ob.bids) ids) v.distinct);
          sides = λ i. rw e (v.sides i ∙ rw (SameIds-has_id i ids));
        },
        rw e,
      )
