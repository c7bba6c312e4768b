-- ===== src/Auth/Nonces.antt =====
-- Nonces and their line in a message.
use truth_market.Base.{
  ℕ, ◌≡◌, refl, false, none, List, [], ◌∷◌, ◌++◌, ◌==◌, ok, arith, Bool-cases, inl, inr, All,
}
use truth_market.Base.Texts.{Text, has_byte}
use truth_market.Auth.Messages.{
  is_space, trim_left, trim_right, trim_space, split_all, strip_prefix, nonce_prefix, nonce_in,
  extract_nonce,
}

split_all-line :
    (b : ℕ) (l rest : Text)
    → has_byte b l ≡ false
    → split_all b (l ++ b ∷ rest) ≡ l ∷ split_all b rest
unfolding split_all
split_all-line b [] rest h = ground arith
split_all-line b (x ∷ xs) rest h = ground (arith, split_all-line b xs rest (ground (arith, h)))

-- A line of its own that does not name a nonce.
abbrev pub IsPlainLine : Text → Type 0
IsPlainLine l = (has_byte b'\n' l ≡ false) × (strip_prefix nonce_prefix (trim_space l) ≡ none)

-- A text without white space.
abbrev pub IsSolid : Text → Type 0
IsSolid s = All (λ x. is_space x ≡ false) s

-- A message with lines before the one that names the nonce, and any text after it.
abbrev pub message_with : List Text → Text → Text → Text
message_with [] nonce rest = (nonce_prefix ++ nonce) ++ b'\n' ∷ rest
message_with (l ∷ ls) nonce rest = l ++ b'\n' ∷ message_with ls nonce rest

trim_right-solid : (s : Text) → IsSolid s → trim_right s ≡ s
unfolding trim_right
trim_right-solid [] h = refl
trim_right-solid (x ∷ []) h = rw h.0 refl
trim_right-solid (x ∷ y ∷ ys) h = rw (trim_right-solid (y ∷ ys) h.1) refl

trim_space-solid : (x : ℕ) (xs : Text) → IsSolid (x ∷ xs) → trim_space (x ∷ xs) ≡ x ∷ xs
unfolding trim_left
trim_space-solid x xs h = rw h.0 (trim_right-solid (x ∷ xs) h)

trim_space-nonce :
    (x : ℕ) (xs : Text)
    → IsSolid (x ∷ xs)
    → trim_space (nonce_prefix ++ x ∷ xs) ≡ nonce_prefix ++ x ∷ xs
unfolding trim_left trim_right
trim_space-nonce x xs h = rw (trim_right-solid (x ∷ xs) h) refl

solid_line : (s : Text) → IsSolid s → has_byte b'\n' s ≡ false
solid_line [] h = refl
solid_line (x ∷ xs) h = elim (Bool-cases (x == b'\n')) [
  | inl e ↦ absurd ground (arith, e, h.0)
  | inr e ↦ rw e (solid_line xs h.1)
]

-- The nonce of a message is that of its nonce line, whatever plain lines come before and whatever
-- text comes after it, if it is not empty and has no white space.
pub extract_nonce-message_with :
    (ls : List Text) (x : ℕ) (xs rest : Text)
    → All IsPlainLine ls
    → IsSolid (x ∷ xs)
    → extract_nonce (message_with ls (x ∷ xs) rest) ≡ ok (x ∷ xs)
unfolding extract_nonce nonce_in
extract_nonce-message_with [] x xs rest a h =
    rw (split_all-line b'\n' (nonce_prefix ++ x ∷ xs) rest (solid_line (x ∷ xs) h))
      (rw (trim_space-nonce x xs h) (rw (trim_space-solid x xs h) refl))
extract_nonce-message_with (l ∷ ls) x xs rest a h =
    rw (split_all-line b'\n' l (message_with ls (x ∷ xs) rest) a.0.0)
      (rw a.0.1 (extract_nonce-message_with ls x xs rest a.1 h))
