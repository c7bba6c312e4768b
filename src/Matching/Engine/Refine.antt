-- ===== src/Matching/Engine/Refine.antt =====
-- matchOrder's loop over a book is the walk over the list of the opposite side's orders.
use truth_market.Base.{
  ℕ, zero, suc, ◌≡◌, refl, sym, ap, ◌∙◌, true, false, none, some, List, [], ◌∷◌, ◌++◌, append-nil,
  append_assoc, arith, ◌==◌, length,
}
use truth_market.Domain.{Ident, OrderSide, buy, sell, Order}
use truth_market.Matching.Book.{Orderbook}
use truth_market.Matching.Book.Invariant.{IsBook, View, view}
use truth_market.Matching.Book.Invariant.Keep.{Becomes}
use truth_market.Matching.Engine.{
  Matching, best_opposite, dequeue_opposite, set_opposite, apart, is_done, trade_qty, new_trade,
  fill_by, filled_maker, trade_with, skip_maker, match_step, match_loop,
}
use truth_market.Matching.Engine.Opposite.{opposite_of, with_opposite, dequeue-set_opposite}
use truth_market.Matching.Engine.Priority.{Filled, stop, skip_first, trade_first}

-- A state of the loop against the walk from an earlier one: what was done before and the walk's
-- own part, one after the other, and the walk's rest of the side in the book.
pub record Ends (uuid : ℕ → Ident) (m : Matching) (r : Filled) (m' : Matching) : Type 0 where
  pub taker : m'.taker ≡ r.taker
  pub trades : m'.trades ≡ m.trades ++ r.trades
  pub skipped : m'.skipped ≡ m.skipped ++ r.skipped
  pub book : Becomes m'.book (with_opposite m.taker.side r.left (view m.book))
  pub stopped : match_step uuid m' ≡ none

with_opposite-same :
    (s : OrderSide) (v : View) (os : List Order) → opposite_of s v ≡ os → with_opposite s os v ≡ v
with_opposite-same buy v os e = ground arith
with_opposite-same sell v os e = ground arith

pub opposite_of-with :
    (s : OrderSide) (v : View) (os : List Order) → opposite_of s (with_opposite s os v) ≡ os
opposite_of-with buy v os = refl
opposite_of-with sell v os = refl

with_opposite-twice :
    (s : OrderSide) (v : View) (os ps : List Order)
    → with_opposite s ps (with_opposite s os v) ≡ with_opposite s ps v
with_opposite-twice buy v os ps = refl
with_opposite-twice sell v os ps = refl

-- A loop that stops where it is.
pub Ends-stop :
    (uuid : ℕ → Ident) (m : Matching) (os : List Order)
    → IsBook m.book
    → opposite_of m.taker.side (view m.book) ≡ os
    → match_step uuid m ≡ none
    → Ends uuid m (stop m.taker os) m
Ends-stop uuid m os v e h = record {
  taker = refl;
  trades = sym (append-nil _);
  skipped = sym (append-nil _);
  book = (v, sym (with_opposite-same m.taker.side (view m.book) os e));
  stopped = h;
}

pub skip_maker-Ends :
    (uuid : ℕ → Ident) (m m' : Matching) (o : Order) (os : List Order) (r : Filled)
    → Becomes (dequeue_opposite m.taker.side m.book) (with_opposite m.taker.side os (view m.book))
    → Ends uuid (skip_maker o m) r m'
    → Ends uuid m (skip_first o r) m'
unfolding skip_maker
skip_maker-Ends uuid m m' o os r (_, e) x = record {
  taker = x.taker;
  trades = x.trades;
  skipped = x.skipped ∙ append_assoc m.skipped (o ∷ []) r.skipped;
  book = (
    x.book.0,
    x.book.1
        ∙ ap (with_opposite m.taker.side r.left) e
        ∙ with_opposite-twice m.taker.side (view m.book) os r.left,
  );
  stopped = x.stopped;
}

-- A round with the maker filled or not, seen as a state.
unfoldable pub traded : (ℕ → Ident) → Order → Orderbook → Matching → Matching
traded uuid o ob m = record m {
  taker = fill_by (trade_qty m.taker o) m.taker;
  book = ob;
  trades = m.trades ++ new_trade (uuid (length m.trades)) m.taker o ∷ [];
}

pub traded-Ends :
    (uuid : ℕ → Ident) (m m' : Matching) (o : Order) (ob : Orderbook) (os : List Order) (r : Filled)
    → Becomes ob (with_opposite m.taker.side os (view m.book))
    → Ends uuid (traded uuid o ob m) r m'
    → Ends uuid m (trade_first (new_trade (uuid (length m.trades)) m.taker o) r) m'
unfolding traded
traded-Ends uuid m m' o ob os r (_, e) x = record {
  taker = x.taker;
  trades = x.trades ∙ append_assoc m.trades _ r.trades;
  skipped = x.skipped;
  book = (
    x.book.0,
    x.book.1
        ∙ ap (with_opposite m.taker.side r.left) e
        ∙ with_opposite-twice m.taker.side (view m.book) os r.left,
  );
  stopped = x.stopped;
}

pub loop-stop :
    (fuel : ℕ) (uuid : ℕ → Ident) (m : Matching)
    → match_step uuid m ≡ none
    → match_loop fuel uuid m ≡ m
unfolding match_loop
loop-stop zero uuid m h = refl
loop-stop (suc fuel) uuid m h = rw (h, match_loop)

pub loop-step :
    (fuel : ℕ) (uuid : ℕ → Ident) (m m' : Matching)
    → match_step uuid m ≡ some m'
    → match_loop (suc fuel) uuid m ≡ match_loop fuel uuid m'
unfolding match_loop
loop-step fuel uuid m m' h = rw (h, match_loop)

pub step-done :
    (uuid : ℕ → Ident) (m : Matching) → is_done m.taker ≡ true → match_step uuid m ≡ none
unfolding match_step
step-done uuid m h = rw h

pub step-empty :
    (uuid : ℕ → Ident) (m : Matching)
    → best_opposite m.taker.side m.book ≡ none
    → match_step uuid m ≡ none
unfolding match_step
step-empty uuid m h = ground arith

module _ (uuid : ℕ → Ident) (m : Matching) (o : Order)
    (b : best_opposite m.taker.side m.book ≡ some o) where
  pub step-apart : apart m.taker.side m.taker.price o.price ≡ true → match_step uuid m ≡ none
  unfolding match_step
  step-apart a = ground arith

  module _ (live : is_done m.taker ≡ false)
      (cross : apart m.taker.side m.taker.price o.price ≡ false) where
    pub step-skip :
        (m.taker.user_id == o.user_id) ≡ true → match_step uuid m ≡ some (skip_maker o m)
    unfolding match_step
    step-skip u = rw (live, b, cross, u)

    pub step-trade :
        (m.taker.user_id == o.user_id) ≡ false → match_step uuid m ≡ some (trade_with uuid o m)
    unfolding match_step
    step-trade u = rw (live, b, cross, u)

  pub trade_with-filled :
      IsBook m.book
      → is_done (filled_maker m.taker o) ≡ true
      → trade_with uuid o m ≡ traded uuid o (dequeue_opposite m.taker.side m.book) m
  unfolding trade_with traded
  trade_with-filled v d =
      rw (dequeue-set_opposite m.taker.side (filled_maker m.taker o) o m.book v b refl, d)

  pub trade_with-partial :
      is_done (filled_maker m.taker o) ≡ false
      → trade_with uuid o m
        ≡ traded uuid o (set_opposite m.taker.side (filled_maker m.taker o) m.book) m
  unfolding trade_with traded
  trade_with-partial d = rw d
