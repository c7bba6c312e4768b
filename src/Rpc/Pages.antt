-- ===== src/Rpc/Pages.antt =====
-- The pages of ListOrders in Go's integers.
use truth_market.Base.{ℕ, zero, suc, ◌*◌, ◌≡◌, sym, ap, ◌∙◌, subst, arith, Bool-cases, inl, inr}
use truth_market.Base.Int.{ℤ, pos, negsuc, ◌-ℤ◌, ◌*ℤ◌, ◌≤ℤ◌, leb_ℤ}
use truth_market.Base.Machine.{wrap64, wrap64_lem, IsInt32, previous-IsInt64, offset-IsInt64}
use truth_market.Rpc.Trading.{RpcListOrders, or_default, filter_of}

or_default-positive : (k : ℕ) (x : ℤ) → (n : ℕ) × (or_default (pos (suc k)) x ≡ pos (suc n))
or_default-positive k (negsuc n) = (k, ground arith)
or_default-positive k (pos zero) = (k, ground arith)
or_default-positive k (pos (suc m)) = (m, ground arith)

or_default-IsInt32 : (d x : ℤ) → IsInt32 d → IsInt32 x → IsInt32 (or_default d x)
or_default-IsInt32 d x h k = elim (Bool-cases (leb_ℤ x (pos 0))) [ inl e ↦ rw e h | inr e ↦ rw e k ]

exact_offset : (n m : ℕ) → ((pos (suc n) -ℤ pos 1) *ℤ pos (suc m)) ≡ pos (n * suc m)
unfolding ◌-ℤ◌ ◌*ℤ◌
exact_offset n m = ground arith

not_negative :
    (x y : ℤ) (n m : ℕ) → x ≡ pos (suc n) → y ≡ pos (suc m) → pos 0 ≤ℤ ((x -ℤ pos 1) *ℤ y)
not_negative x y n m e f =
    subst (λ z. pos 0 ≤ℤ z)
      (sym (
        ap (λ z. (z -ℤ pos 1) *ℤ y) e
        ∙ (ap (λ z. (pos (suc n) -ℤ pos 1) *ℤ z) f ∙ exact_offset n m)))
      (omega arith)

-- For every page number and page size of 32 bits, negative ones and 0 included, ListOrders asks for at
-- least one order, from an offset that is not negative and is the exact product of the pages before
-- and the size: Go's int does not overflow.
pub filter_of-bounds :
    (req : RpcListOrders)
    → IsInt32 req.page
    → IsInt32 req.per_page
    → (pos 1 ≤ℤ (filter_of req).limit)
      × (pos 0 ≤ℤ (filter_of req).offset)
      × ((filter_of req).offset
          ≡ (or_default (pos 1) req.page -ℤ pos 1) *ℤ or_default (pos 50) req.per_page)
unfolding filter_of
filter_of-bounds req h k =
    let (n, e) = or_default-positive 0 req.page in
    let (m, f) = or_default-positive 49 req.per_page in
    (
      subst (λ z. pos 1 ≤ℤ z) (sym f) (omega arith),
      subst (λ z. pos 0 ≤ℤ z) (sym exact) (not_negative _ _ n m e f),
      exact,
    )
  where
    page32 : IsInt32 (or_default (pos 1) req.page)
    page32 = or_default-IsInt32 (pos 1) req.page (omega arith) h

    size32 : IsInt32 (or_default (pos 50) req.per_page)
    size32 = or_default-IsInt32 (pos 50) req.per_page (omega arith) k

    exact :
        wrap64 (wrap64 (or_default (pos 1) req.page -ℤ pos 1) *ℤ or_default (pos 50) req.per_page)
        ≡ (or_default (pos 1) req.page -ℤ pos 1) *ℤ or_default (pos 50) req.per_page
    exact =
        ap (λ z. wrap64 (z *ℤ or_default (pos 50) req.per_page))
          (wrap64_lem _ (previous-IsInt64 _ page32))
        ∙ wrap64_lem _ (offset-IsInt64 _ _ page32 size32)
