-- ===== src/Matching/Book/Levels.antt =====
-- orderbook.go: what holds of the price levels of a side, and the insertion of an order by a walk
-- over the levels, to compare with the binary search of addToBids and addToAsks.
pub mod Insert
pub mod Change
pub mod Cancel
use truth_market.Base.{
  ℕ, zero, suc, ◌+◌, ◌≤◌, ◌<◌, ◌≡◌, refl, true, false, ◌||◌, List, [], ◌∷◌, ◌++◌, arith,
  if◌then◌else◌, length, get_elem?, All, Bool-cases, inl, inr,
}
use truth_market.Base.Int.{eqb_ℤ, ◌<ℤ◌, eq_of_parts}
use truth_market.Domain.{Price, zero_dec, OrderSide, buy, sell, Order, remaining_qty}
use truth_market.Matching.Search.{sort_search, sort_search-IsFirst, IsFirst-unique}
use truth_market.Matching.Queue.Laws.{IsIndexed}
use truth_market.Matching.Book.{PriceQueue, ahead, past}

pub ahead_trans :
    (s : OrderSide) (p q r : Price) → ahead s p q ≡ true → ahead s q r ≡ true → ahead s p r ≡ true
ahead_trans buy p q r a b = ground arith
ahead_trans sell p q r a b = ground arith

pub ahead_trans_not :
    (s : OrderSide) (p q r : Price) → ahead s q r ≡ true → ahead s p r ≡ false → ahead s p q ≡ false
ahead_trans_not buy p q r a b = ground arith
ahead_trans_not sell p q r a b = ground arith

pub ahead_asymm : (s : OrderSide) (p q : Price) → ahead s p q ≡ true → ahead s q p ≡ false
ahead_asymm buy p q h = ground arith
ahead_asymm sell p q h = ground arith

pub ahead_irrefl : (s : OrderSide) (p : Price) → ahead s p p ≡ false
ahead_irrefl buy p = ground arith
ahead_irrefl sell p = ground arith

pub ahead_ne : (s : OrderSide) (p q : Price) → ahead s p q ≡ true → eqb_ℤ p q ≡ false
ahead_ne buy p q h = ground arith
ahead_ne sell p q h = ground arith

pub ahead_ne_sym : (s : OrderSide) (p q : Price) → ahead s p q ≡ true → eqb_ℤ q p ≡ false
ahead_ne_sym buy p q h = ground arith
ahead_ne_sym sell p q h = ground arith

-- Of two different prices one is ahead.
pub ahead_total :
    (s : OrderSide) (p q : Price) → ahead s q p ≡ false → eqb_ℤ p q ≡ false → ahead s p q ≡ true
ahead_total buy p q h e = ground arith
ahead_total sell p q h e = ground arith

pub eqb_ℤ→eq : (p q : Price) → eqb_ℤ p q ≡ true → p ≡ q
eqb_ℤ→eq p q h = eq_of_parts p q (ground arith)

abbrev pub Leads : OrderSide → Price → List PriceQueue → Type 0
Leads s p [] = Unit
Leads s p (l ∷ ls) = ahead s p l.price ≡ true

-- The best price first, and no price twice.
abbrev pub IsSorted : OrderSide → List PriceQueue → Type 0
IsSorted s [] = Unit
IsSorted s (l ∷ ls) = Leads s l.price ls × IsSorted s ls

-- An order that may rest at a price of a side: something of it is left to fill.
pub record Rests (s : OrderSide) (p : Price) (o : Order) : Type 0 where
  pub on_side : o.side ≡ s
  pub at_level : o.price ≡ p
  pub live : zero_dec <ℤ remaining_qty o

pub record IsLevel (s : OrderSide) (l : PriceQueue) : Type 0 where
  pub indexed : IsIndexed l.queue
  pub nonempty : 0 < length l.queue.orders
  pub resting : All (Rests s l.price) l.queue.orders

abbrev pub IsSide : OrderSide → List PriceQueue → Type 0
IsSide s ls = All (IsLevel s) ls × IsSorted s ls

pub Leads-trans :
    (s : OrderSide) (p q : Price) (ls : List PriceQueue)
    → ahead s p q ≡ true
    → Leads s q ls
    → Leads s p ls
Leads-trans s p q [] a h = tt
Leads-trans s p q (l ∷ ls) a h = ahead_trans s p q l.price a h

-- Every level of a sorted side is past a price that leads it.
pub Leads-past :
    (s : OrderSide) (p : Price) (ls : List PriceQueue) (m : ℕ)
    → Leads s p ls
    → IsSorted s ls
    → past s p (get_elem? ls m) ≡ true
Leads-past s p [] m a h = refl
Leads-past s p (l ∷ ls) zero a h = a
Leads-past s p (l ∷ ls) (suc m) a h = Leads-past s p ls m (Leads-trans s p l.price ls a h.0) h.1

past_mono :
    (s : OrderSide) (p : Price) (ls : List PriceQueue) (a b : ℕ)
    → IsSorted s ls
    → a ≤ b
    → past s p (get_elem? ls a) ≡ true
    → past s p (get_elem? ls b) ≡ true
past_mono s p [] a b h l e = refl
past_mono s p (x ∷ ls) zero zero h l e = e
past_mono s p (x ∷ ls) zero (suc b) h l e =
    Leads-past s p ls b (Leads-trans s p x.price ls e h.0) h.1
past_mono s p (x ∷ ls) (suc a) zero h l e = absurd (omega arith)
past_mono s p (x ∷ ls) (suc a) (suc b) h l e = past_mono s p ls a b h.1 (omega arith) e

-- How many levels come before the first that is past the price.
pub first_past : OrderSide → Price → List PriceQueue → ℕ
first_past s p [] = 0
first_past s p (l ∷ ls) = if ahead s p l.price then 0 else suc (first_past s p ls)

first_past-le : (s : OrderSide) (p : Price) (ls : List PriceQueue) → first_past s p ls ≤ length ls
unfolding first_past
first_past-le s p [] = omega arith
first_past-le s p (l ∷ ls) = ground (arith, first_past-le s p ls)

first_past-before :
    (s : OrderSide) (p : Price) (ls : List PriceQueue) (m : ℕ)
    → m < first_past s p ls
    → past s p (get_elem? ls m) ≡ false
unfolding first_past
first_past-before s p [] m h = absurd (omega arith)
first_past-before s p (l ∷ ls) zero h = ground arith
first_past-before s p (l ∷ ls) (suc m) h = ground (arith, first_past-before s p ls m)

first_past-here :
    (s : OrderSide) (p : Price) (ls : List PriceQueue)
    → past s p (get_elem? ls (first_past s p ls)) ≡ true
unfolding first_past
first_past-here s p [] = refl
first_past-here s p (l ∷ ls) = elim (Bool-cases (ahead s p l.price)) [
  | inl e ↦ rw (e, e)
  | inr e ↦ rw e (first_past-here s p ls)
]

-- The index that the binary search of a sorted side finds.
pub sort_search-first_past :
    (s : OrderSide) (p : Price) (ls : List PriceQueue)
    → IsSorted s ls
    → sort_search (length ls) (λ i. past s p (get_elem? ls i)) ≡ first_past s p ls
sort_search-first_past s p ls h =
    IsFirst-unique (λ i. past s p (get_elem? ls i)) (length ls) _ _
      (sort_search-IsFirst _ _ (λ a b l k e. past_mono s p ls a b h l e))
      (record {
        in_range = first_past-le s p ls;
        before = λ m. first_past-before s p ls m;
        after = λ m l k. past_mono s p ls (first_past s p ls) m h l (first_past-here s p ls);
      })
