-- ===== src/Matching/Engine/Priority/Clauses.antt =====
-- The ways in which a round of the walk can go.
use truth_market.Base.{
  ℕ, suc, ◌≡◌, refl, sym, subst, true, false, List, [], ◌∷◌, ◌==◌, Bool-cases, inl, inr,
}
use truth_market.Domain.{Ident, Order}
use truth_market.Matching.Engine.{apart, is_done, trade_qty, new_trade, fill_by, filled_maker}
use truth_market.Matching.Engine.Priority.{Filled, stop, skip_first, trade_first, stop_in, fill}

-- The clause of the walk for each way in which a round can go.
module _ (uuid : ℕ → Ident) (n : ℕ) (t o : Order) (os : List Order) where
  pub fill-done : is_done t ≡ true → fill uuid n t (o ∷ os) ≡ stop t (o ∷ os)
  unfolding fill
  fill-done d = rw d

  module _ (live : is_done t ≡ false) where
    pub fill-apart : apart t.side t.price o.price ≡ true → fill uuid n t (o ∷ os) ≡ stop t (o ∷ os)
    unfolding fill
    fill-apart a = rw (live, a)

    module _ (cross : apart t.side t.price o.price ≡ false) where
      pub fill-skip :
          (t.user_id == o.user_id) ≡ true → fill uuid n t (o ∷ os) ≡ skip_first o (fill uuid n t os)
      unfolding fill
      fill-skip u = rw (live, cross, u)

      module _ (other : (t.user_id == o.user_id) ≡ false) where
        pub fill-filled :
            is_done (filled_maker t o) ≡ true
            → fill uuid n t (o ∷ os)
              ≡ trade_first
                  (new_trade (uuid n) t o)
                  (fill uuid (suc n) (fill_by (trade_qty t o) t) os)
        unfolding fill
        fill-filled d = rw (live, cross, other, d)

        pub fill-partial :
            is_done (filled_maker t o) ≡ false
            → fill uuid n t (o ∷ os)
              ≡ stop_in (fill_by (trade_qty t o) t) (new_trade (uuid n) t o) (filled_maker t o) os
        unfolding fill
        fill-partial d = rw (live, cross, other, d)

-- To prove something of a walk past an order: for the ways in which its round can go.
pub fill_cases {ℓ} :
    (P : Filled → Type ℓ) (uuid : ℕ → Ident) (n : ℕ) (t o : Order) (os : List Order)
    → (is_done t ≡ true → P (stop t (o ∷ os)))
    → (apart t.side t.price o.price ≡ true → P (stop t (o ∷ os)))
    → ((t.user_id == o.user_id) ≡ true
        → apart t.side t.price o.price ≡ false
        → P (skip_first o (fill uuid n t os)))
    → (is_done t ≡ false
        → apart t.side t.price o.price ≡ false
        → (t.user_id == o.user_id) ≡ false
        → is_done (filled_maker t o) ≡ true
        → P (
            trade_first
              (new_trade (uuid n) t o)
              (fill uuid (suc n) (fill_by (trade_qty t o) t) os)))
    → (is_done t ≡ false
        → apart t.side t.price o.price ≡ false
        → (t.user_id == o.user_id) ≡ false
        → is_done (filled_maker t o) ≡ false
        → P (stop_in (fill_by (trade_qty t o) t) (new_trade (uuid n) t o) (filled_maker t o) os))
    → P (fill uuid n t (o ∷ os))
fill_cases P uuid n t o os d a s f p = elim (Bool-cases (is_done t)) [
  | inl e ↦ at (fill-done uuid n t o os e) (d e)
  | inr live ↦ elim (Bool-cases (apart t.side t.price o.price)) [
    | inl e ↦ at (fill-apart uuid n t o os live e) (a e)
    | inr cross ↦ elim (Bool-cases (t.user_id == o.user_id)) [
      | inl e ↦ at (fill-skip uuid n t o os live cross e) (s e cross)
      | inr other ↦ elim (Bool-cases (is_done (filled_maker t o))) [
        | inl e ↦ at (fill-filled uuid n t o os live cross other e) (f live cross other e)
        | inr e ↦ at (fill-partial uuid n t o os live cross other e) (p live cross other e)
      ]
    ]
  ]
]
  where
    at : {r : Filled} → fill uuid n t (o ∷ os) ≡ r → P r → P (fill uuid n t (o ∷ os))
    at e x = subst P (sym e) x

pub fill-nil : (uuid : ℕ → Ident) (n : ℕ) (t : Order) → fill uuid n t [] ≡ stop t []
unfolding fill
fill-nil uuid n t = refl
