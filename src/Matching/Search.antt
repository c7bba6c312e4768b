-- ===== src/Matching/Search.antt =====
-- `sort.Search` of Go's standard library: the least index in [0, n) at which a test holds, or n.
use truth_market.Base.{
  ℕ, zero, suc, ◌+◌, ◌/◌, ◌≤◌, ◌<◌, ◌≡◌, Bool, true, false, arith, ltb, if◌then◌else◌, Bool-cases,
  inl, inr,
}

search_loop : ℕ → (ℕ → Bool) → ℕ → ℕ → ℕ
search_loop zero f i j = i
search_loop (suc fuel) f i j =
    let h = (i + j) / 2 in
    let rest = search_loop fuel f (if f h then i else h + 1) (if f h then h else j) in
    if ltb i j then rest else i

-- A round shrinks the interval, so n rounds are enough.
unfoldable pub sort_search : ℕ → (ℕ → Bool) → ℕ
unfolding search_loop
sort_search n f = search_loop n f 0 n

-- `k` is where the test begins to hold on [0, n).
pub record IsFirst (f : ℕ → Bool) (n k : ℕ) : Type 0 where
  pub in_range : k ≤ n
  pub before : (m : ℕ) → m < k → f m ≡ false
  pub after : (m : ℕ) → k ≤ m → m < n → f m ≡ true

module _ (f : ℕ → Bool) (n : ℕ) (mono : (a b : ℕ) → a ≤ b → b < n → f a ≡ true → f b ≡ true) where
  mono_false : (a b : ℕ) → a ≤ b → b < n → f b ≡ false → f a ≡ false
  mono_false a b h l e = ground (arith, mono a b h l)

  search_loop-IsFirst :
      (fuel i j : ℕ)
      → j ≤ i + fuel
      → i ≤ j
      → j ≤ n
      → ((m : ℕ) → m < i → f m ≡ false)
      → ((m : ℕ) → j ≤ m → m < n → f m ≡ true)
      → IsFirst f n (search_loop fuel f i j)
  unfolding search_loop
  search_loop-IsFirst zero i j e o l b a = record {
    in_range = omega arith;
    before = b;
    after = λ m h k. a m (omega arith) k;
  }
  search_loop-IsFirst (suc fuel) i j e o l b a = elim (Bool-cases (ltb i j)) [
    | inr stop ↦
        rw stop
          (record { in_range = omega arith; before = b; after = λ m h k. a m (ground arith) k })
    | inl go ↦
        let lt : i < j = ground arith in
        elim (Bool-cases (f ((i + j) / 2))) [
          | inl hit ↦
              rw (go, hit)
                (search_loop-IsFirst fuel i ((i + j) / 2) (omega arith) (omega arith) (omega arith)
                  b (λ m h k. mono ((i + j) / 2) m h k hit))
          | inr miss ↦
              rw (go, miss)
                (search_loop-IsFirst fuel ((i + j) / 2 + 1) j (omega arith) (omega arith) l
                  (λ m h. mono_false m ((i + j) / 2) (omega arith) (omega arith) miss) a)
        ]
  ]

  -- On a test that goes on holding once it holds, the binary search finds where it begins.
  pub sort_search-IsFirst : IsFirst f n (sort_search n f)
  unfolding sort_search
  sort_search-IsFirst =
      search_loop-IsFirst n 0 n (omega arith) (omega arith) (omega arith)
        (λ m h. absurd (omega arith)) (λ m h k. absurd (omega arith))

-- There is one such place.
pub IsFirst-unique : (f : ℕ → Bool) (n k l : ℕ) → IsFirst f n k → IsFirst f n l → k ≡ l
IsFirst-unique f n k l p q =
    ground (arith, p.in_range, q.in_range, p.before l, q.before k, p.after k, q.after l)
