-- ===== src/Matching/Engine/Books.antt =====
-- The books of an engine under PlaceOrder and CancelOrder.
use truth_market.Base.{
  ℕ, Bool, not, Result, ◌≡◌, refl, sym, subst, ◌∙◌, true, false, ◌||◌, ◌&&◌, Option, none, some,
  List, [], ◌∷◌, arith, ◌==◌, if◌then◌else◌, All, Bool-cases, inl, inr, ok, err,
}
use truth_market.Base.Int.{ltb_ℤ, leb_ℤ}
use truth_market.Base.Maps.{lookup, insert}
use truth_market.Domain.{
  Ident, Price, zero_dec, min_price, max_price, validate_price, partially_filled, filled, OrderSide,
  buy, sell, Order, remaining_qty,
}
use truth_market.Matching.Queue.{has_id}
use truth_market.Matching.Book.{Orderbook, new_orderbook, orders_of, cancel_order}
use truth_market.Matching.Book.Invariant.{IsBook, View, view, all_of, add_to_view}
use truth_market.Matching.Book.Invariant.Keep.{Becomes, add_order-Becomes}
use truth_market.Matching.Queue.Laws.{has_id-append}
use truth_market.Matching.Book.Invariant.Remove.{cancel_order-Cancels}
use truth_market.Matching.Engine.{
  Matching, Engine, EngineError, invalid_price, invalid_quantity, MatchResult, Event, match_order,
  with_status, rest_order, place_order, emit, emit_all, get_or_create_orderbook,
  engine_cancel_order, cancelled_in, cancel_found, or_new,
}
use truth_market.Matching.Engine.Opposite.{own_of, opposite_of}
use truth_market.Matching.Engine.Place.{
  walk, matched_view, add_all_to_view, match_order-walk, has_id-with_opposite, has_id-add_to_view,
}
use truth_market.Matching.Engine.Walk.{fill-Fills}
use truth_market.Matching.Engine.Walk.Partition.{fill-Without}

-- Every book of an engine meets its invariant.
abbrev pub IsEngine : Engine → Type 0
IsEngine e = All (λ p. IsBook p.1) e.orderbooks

pub new_orderbook-IsBook : (o : Ident) → IsBook (new_orderbook o)
unfolding new_orderbook orders_of has_id
new_orderbook-IsBook o = record {
  bids = (tt, tt);
  asks = (tt, tt);
  distinct = tt;
  sides = λ i. refl;
}

lookup-All :
    (k : Ident) (m : List (Ident × Orderbook))
    → All (λ p. IsBook p.1) m
    → IsBook (or_new k (lookup k m))
lookup-All k [] a = new_orderbook-IsBook k
lookup-All k (p ∷ m) a = elim (Bool-cases (p.0 == k)) [
  | inl e ↦ rw e a.0
  | inr e ↦ rw e (lookup-All k m a.1)
]

pub insert-All :
    (k : Ident) (ob : Orderbook) (m : List (Ident × Orderbook))
    → IsBook ob
    → All (λ p. IsBook p.1) m
    → All (λ p. IsBook p.1) (insert k ob m)
insert-All k ob [] b a = (b, tt)
insert-All k ob (p ∷ m) b a = elim (Bool-cases (p.0 == k)) [
  | inl e ↦ rw e (b, a.1)
  | inr e ↦ rw e (a.0, insert-All k ob m b a.1)
]

pub get_or_create-IsBook :
    (o : Ident) (e : Engine) → IsEngine e → IsBook (get_or_create_orderbook o e)
unfolding get_or_create_orderbook
get_or_create-IsBook o e v = lookup-All o e.orderbooks v

orderbooks-emit_all : (vs : List Event) (e : Engine) → (emit_all vs e).orderbooks ≡ e.orderbooks
unfolding emit_all emit
orderbooks-emit_all [] e = refl
orderbooks-emit_all (v ∷ vs) e = orderbooks-emit_all vs (emit v e)

-- The order that does not appear in a book does not appear after matching either.
has_id-add_all :
    (i : Ident) (os : List Order) (v : View)
    → has_id i os ≡ false
    → has_id i (all_of v) ≡ false
    → has_id i (all_of (add_all_to_view os v)) ≡ false
unfolding has_id
has_id-add_all i [] v h k = k
has_id-add_all i (o ∷ os) v h k =
    has_id-add_all i os (add_to_view o.side o v) (ground arith)
      (ground (arith, has_id-add_to_view o.side o i v))

own_absent :
    (s : OrderSide) (i : Ident) (v : View)
    → has_id i (all_of v) ≡ false
    → (has_id i (own_of s v) ≡ false) × (has_id i (opposite_of s v) ≡ false)
own_absent buy i v h = ground (arith, has_id-append i v.bids v.asks)
own_absent sell i v h = ground (arith, has_id-append i v.bids v.asks)

-- The order of a call at its end: its status says whether it is filled in full, in part or not.
abbrev pub placed : Order → Order
placed o =
    if ltb_ℤ zero_dec (remaining_qty o)
    then (if ltb_ℤ zero_dec o.filled_qty then with_status partially_filled o else o)
    else with_status filled o

-- The two sides of the book after a call: what is left of the order rests.
abbrev pub placed_view : Order → View → View
placed_view o v = if ltb_ℤ zero_dec (remaining_qty o) then add_to_view o.side (placed o) v else v

module _ (uuid : ℕ → Ident) (o : Order) (ob : Orderbook) (v : IsBook ob)
    (fresh : has_id o.id (all_of (view ob)) ≡ false) where
  after_absent : has_id o.id (all_of (matched_view uuid o ob)) ≡ false
  after_absent =
      let (own, opp) = own_absent o.side o.id (view ob) fresh in
      let (l, s) = fill-Without o.id uuid 0 o (opposite_of o.side (view ob)) opp in
      has_id-add_all o.id (walk uuid o ob).skipped _ s
        (has_id-with_opposite o.side o.id (walk uuid o ob).left (view ob) own l)

-- The resting phase.
abbrev pub Rested : Order → View → MatchResult × Orderbook → Type 0
Rested t w (r, ob) = (r.order ≡ placed t) × Becomes ob (placed_view t w)

rest_order-Rested :
    (m : Matching)
    → IsBook m.book
    → has_id m.taker.id (all_of (view m.book)) ≡ false
    → Rested m.taker (view m.book) (rest_order m)
unfolding rest_order
rest_order-Rested m v h = elim (Bool-cases (ltb_ℤ zero_dec (remaining_qty m.taker))) [
  | inr done ↦ rw done (refl, (v, refl))
  | inl live ↦ elim (Bool-cases (ltb_ℤ zero_dec m.taker.filled_qty)) [
    | inl part ↦
        rw (live, part)
          (refl, add_order-Becomes (with_status partially_filled m.taker) m.book v (ground arith) h)
    | inr none_yet ↦ rw (live, none_yet) (refl, add_order-Becomes m.taker m.book v (ground arith) h)
  ]
]

-- A call of PlaceOrder on the book of its outcome.
abbrev pub book_call : (ℕ → Ident) → Order → Orderbook → MatchResult × Orderbook
book_call uuid o ob = rest_order (match_order uuid o ob)

module _ (uuid : ℕ → Ident) (o : Order) (ob : Orderbook) (v : IsBook ob)
    (fresh : has_id o.id (all_of (view ob)) ≡ false) where
  -- Matching and resting an order whose identifier is not in the book: the order comes back with
  -- the status that its fill calls for, what is left of it rests behind the orders at its price or
  -- better, the rest of the book is what matching left, and the book keeps its invariant.
  pub book_call-Rested :
      Rested (walk uuid o ob).taker (matched_view uuid o ob) (book_call uuid o ob)
  book_call-Rested =
      let m = match_order uuid o ob in
      let (et, _, became) = match_order-walk uuid o ob v in
      let same = et ∙ fill-Fills uuid 0 o (opposite_of o.side (view ob)) in
      let absent =
        subst {A = Order} (λ t. has_id t.id (all_of (view m.book)) ≡ false) (sym same)
          (subst (λ w. has_id o.id (all_of w) ≡ false) (sym became.1)
            (after_absent uuid o ob v fresh)) in
      subst (λ w. Rested (walk uuid o ob).taker w (book_call uuid o ob)) became.1
        (subst (λ t. Rested t (view m.book) (book_call uuid o ob)) et
          (rest_order-Rested m became.0 absent))

-- PlaceOrder keeps the invariant of every book of the engine, on its error paths too, for an order
-- whose identifier is not in the book of its outcome.
pub place_order-IsEngine :
    (uuid : ℕ → Ident) (o : Order) (e : Engine)
    → IsEngine e
    → has_id o.id (all_of (view (get_or_create_orderbook o.outcome_id e))) ≡ false
    → IsEngine (place_order uuid o e).1
unfolding place_order get_or_create_orderbook
place_order-IsEngine uuid o e v fresh =
    elim (Bool-cases (ltb_ℤ o.price min_price || ltb_ℤ max_price o.price)) [
      | inl bad ↦ rw bad v
      | inr fine ↦ elim (Bool-cases (leb_ℤ o.quantity zero_dec)) [
        | inl none_asked ↦ rw (fine, none_asked) v
        | inr asked ↦
            let ob = or_new o.outcome_id (lookup o.outcome_id e.orderbooks) in
            let b = (book_call-Rested uuid o ob (lookup-All o.outcome_id e.orderbooks v) fresh).1 in
            rw (fine, asked, orderbooks-emit_all)
              (insert-All o.outcome_id (book_call uuid o ob).1 e.orderbooks b.0 v)
      ]
    ]

-- The error that PlaceOrder refuses an order with, if it does.
abbrev pub refusal : Order → Option EngineError
refusal o =
    if validate_price o.price
    then (if leb_ℤ o.quantity zero_dec then some invalid_quantity else none)
    else some invalid_price

abbrev pub Answers : Option EngineError → Engine → Result EngineError MatchResult × Engine → Type 0
Answers none e (r, e') = (m : MatchResult) × (r ≡ ok m)
Answers (some x) e (r, e') = (r ≡ err x) × (e' ≡ e)

outside_range :
    (p : Price)
    → (ltb_ℤ p min_price || ltb_ℤ max_price p) ≡ not (leb_ℤ min_price p && leb_ℤ p max_price)
outside_range p = ground arith

checks_in_order :
    (good small : Bool) (r : MatchResult) (e e' : Engine)
    → Answers
        (if good then (if small then some invalid_quantity else none) else some invalid_price)
        e
        (if not good
          then (err invalid_price, e)
          else if small
          then (err invalid_quantity, e)
          else (ok r, e'))
checks_in_order false small r e e' = (refl, refl)
checks_in_order true true r e e' = (refl, refl)
checks_in_order true false r e e' = (r, refl)

-- The checks of PlaceOrder: it refuses exactly the prices that pkg/decimal's ValidatePrice refuses,
-- then the quantities that are not positive, each with its error and the engine as it was, and it
-- succeeds on every other order.
pub place_order-checks :
    (uuid : ℕ → Ident) (o : Order) (e : Engine) → Answers (refusal o) e (place_order uuid o e)
unfolding place_order validate_price
place_order-checks uuid o e = rw (outside_range o.price) (
    checks_in_order (leb_ℤ min_price o.price && leb_ℤ o.price max_price) (leb_ℤ o.quantity zero_dec)
      _ e _)

cancelled_in-IsEngine :
    (o : Ident) (e : Engine) (r : Option Order × Orderbook)
    → IsEngine e
    → IsBook r.1
    → IsEngine (cancelled_in o r e).1
cancelled_in-IsEngine o e (none, ob) v b = insert-All o ob e.orderbooks b v
cancelled_in-IsEngine o e (some x, ob) v b = insert-All o ob e.orderbooks b v

-- Engine.CancelOrder keeps the invariant of every book.
pub engine_cancel_order-IsEngine :
    (o i : Ident) (e : Engine) → IsEngine e → IsEngine (engine_cancel_order o i e).1
unfolding engine_cancel_order
engine_cancel_order-IsEngine o i e v = found (lookup o e.orderbooks) (lookup-All o e.orderbooks v)
  where
    found : (r : Option Orderbook) → IsBook (or_new o r) → IsEngine (cancel_found o i r e).1
    found none b = v
    found (some ob) b =
        cancelled_in-IsEngine o e (cancel_order i ob) v (cancel_order-Cancels i ob b).1.0
