-- ===== src/Auth/Messages.antt =====
-- services/auth-svc/internal/service/auth.go: extractNonce. Texts are lists of characters.
use truth_market.Base.{
  ℕ, Bool, ◌&&◌, ◌||◌, Option, none, some, List, [], ◌∷◌, ◌==◌, leb, if◌then◌else◌, Result, ok, err,
}
use truth_market.Base.Texts.{Text, codes}
use truth_market.Errors.{Error, plain_error}

-- unicode.IsSpace
abbrev pub is_space : ℕ → Bool
is_space c =
    (leb 9 c && leb c 13)
    || (c == 32)
    || (c == 0x85)
    || (c == 0xA0)
    || (c == 0x1680)
    || (leb 0x2000 c && leb c 0x200A)
    || (c == 0x2028)
    || (c == 0x2029)
    || (c == 0x202F)
    || (c == 0x205F)
    || (c == 0x3000)

unfoldable pub trim_left : Text → Text
trim_left [] = []
trim_left (x ∷ xs) = let rest = trim_left xs in if is_space x then rest else x ∷ xs

abbrev after_trim : ℕ → Text → Text
after_trim x [] = if is_space x then [] else x ∷ []
after_trim x (y ∷ ys) = x ∷ y ∷ ys

unfoldable pub trim_right : Text → Text
trim_right [] = []
trim_right (x ∷ xs) = after_trim x (trim_right xs)

-- strings.TrimSpace
abbrev pub trim_space : Text → Text
trim_space s = trim_right (trim_left s)

abbrev with_head : ℕ → List Text → List Text
with_head x [] = (x ∷ []) ∷ []
with_head x (l ∷ ls) = (x ∷ l) ∷ ls

-- strings.Split(s, sep) for a separator of one character.
unfoldable pub split_all : ℕ → Text → List Text
split_all b [] = [] ∷ []
split_all b (x ∷ xs) = let rest = split_all b xs in if x == b then [] ∷ rest else with_head x rest

-- What follows a prefix; `none` if the text does not start with it.
abbrev pub strip_prefix : Text → Text → Option Text
strip_prefix [] s = some s
strip_prefix (p ∷ ps) [] = none
strip_prefix (p ∷ ps) (x ∷ xs) = let rest = strip_prefix ps xs in if p == x then rest else none

abbrev non_empty : Text → Result Error Text
non_empty [] = err plain_error
non_empty (x ∷ xs) = ok (x ∷ xs)

abbrev pub nonce_prefix : Text
nonce_prefix = codes "Nonce: "

abbrev nonce_or : Option Text → Result Error Text → Result Error Text
nonce_or none rest = rest
nonce_or (some value) rest = non_empty (trim_space value)

-- The loop of extractNonce over the lines.
unfoldable pub nonce_in : List Text → Result Error Text
unfolding trim_left trim_right
nonce_in [] = err plain_error
nonce_in (line ∷ lines) = nonce_or (strip_prefix nonce_prefix (trim_space line)) (nonce_in lines)

unfoldable pub extract_nonce : Text → Result Error Text
unfolding nonce_in split_all
extract_nonce message = nonce_in (split_all b'\n' message)
