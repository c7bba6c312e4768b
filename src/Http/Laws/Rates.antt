-- ===== src/Http/Laws/Rates.antt =====
-- The rate limiter: how many requests of a window it lets pass.
use truth_market.Base.{
  ℕ, suc, ◌+◌, ◌-◌, ◌<◌, ◌≡◌, ap, ◌∙◌, Bool, false, none, some, List, [], ◌∷◌, ◌==◌, leb,
  if◌then◌else◌, length, arith, All,
}
use truth_market.Base.Texts.{Text, same_text_refl}
use truth_market.Http.Middleware.{
  Counter, Counters, live_counter, incremented, store_counter, with_end, limit_key, allow,
}

-- How many requests of a key pass, at the times of a list.
unfoldable pub passes : Text → ℕ → ℕ → List ℕ → Counters → ℕ
unfolding allow
passes key limit window [] s = 0
passes key limit window (t ∷ ts) s =
    let rest = passes key limit window ts (allow t key limit window s).1 in
    if (allow t key limit window s).0 then suc rest else rest

abbrev least : ℕ → ℕ → ℕ
least a b = if leb a b then a else b

stored_counter : (k : Text) (c : Counter) (s : Counters) → store_counter k c s k ≡ some c
stored_counter k c s = ap (λ b. if b then some c else s k) (same_text_refl k)

abbrev counted : ℕ → ℕ → Counter
counted h e = record { hits = h; ends = some e }

not_gone : (e t : ℕ) → t < e → leb e t ≡ false
not_gone e t l = ground (arith, l)

not_first : (h : ℕ) → (suc (suc h) == 1) ≡ false
not_first h = ground arith

allowed_next :
    (t e h : ℕ) (key : Text) (limit window : ℕ) (s : Counters)
    → s (limit_key key) ≡ some (counted (suc h) e)
    → t < e
    → allow t key limit window s
      ≡ (leb (suc (suc h)) limit, store_counter (limit_key key) (counted (suc (suc h)) e) s)
unfolding allow
allowed_next t e h key limit window s k l =
    ap (λ o. next (with_end (t + window) (incremented (live_counter t o)))) k
    ∙ (ap
          (λ b.
            next
              (with_end (t + window) (incremented (if b then none else some (counted (suc h) e)))))
          (not_gone e t l)
        ∙ ap (λ b. next (if b then counted (suc (suc h)) (t + window) else counted (suc (suc h)) e))
            (not_first h))
  where
    next : Counter → Bool × Counters
    next c = (leb c.hits limit, store_counter (limit_key key) c s)

passes_later :
    (e h : ℕ) (key : Text) (limit window : ℕ) (ts : List ℕ) (s : Counters)
    → s (limit_key key) ≡ some (counted (suc h) e)
    → All (λ t. t < e) ts
    → passes key limit window ts s ≡ least (length ts) (limit - suc h)
unfolding passes
passes_later e h key limit window [] s k a = ground arith
passes_later e h key limit window (t ∷ ts) s k a =
    ap (λ r. if r.0 then suc (passes key limit window ts r.1) else passes key limit window ts r.1)
      (allowed_next t e h key limit window s k a.0)
    ∙ ground (
      arith,
      passes_later e (suc h) key limit window ts
          (store_counter (limit_key key) (counted (suc (suc h)) e) s)
          (stored_counter (limit_key key) (counted (suc (suc h)) e) s) a.1,
    )

-- Of the requests of a key in a window, which its first request starts when no counter of the key is
-- left, the limiter lets the first ones pass, as many as the limit, and no other.
pub allow-window :
    (start : ℕ) (key : Text) (limit window : ℕ) (ts : List ℕ) (s : Counters)
    → live_counter start (s (limit_key key)) ≡ none
    → All (λ t. t < start + window) ts
    → passes key limit window (start ∷ ts) s ≡ least (suc (length ts)) limit
unfolding passes allow
allow-window start key limit window ts s g a =
    ap (λ o. first (with_end (start + window) (incremented o))) g
    ∙ ground (
      arith,
      passes_later (start + window) 0 key limit window ts
          (store_counter (limit_key key) (counted 1 (start + window)) s)
          (stored_counter (limit_key key) (counted 1 (start + window)) s) a,
    )
  where
    first : Counter → ℕ
    first c =
        if leb c.hits limit
        then suc (passes key limit window ts (store_counter (limit_key key) c s))
        else passes key limit window ts (store_counter (limit_key key) c s)
