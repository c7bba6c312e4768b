-- ===== src/Base/Texts.antt =====
-- Texts as lists of characters, their comparison, and the cutting of a text at a character.
use Prim.Native.Nat.{ℕ}
use Prim.Native.Char.{code}
use Prim.Native.String.{String}
use mathlib.Core.Path.{◌≡◌, refl, sym, ap, ◌∙◌}
use mathlib.Core.Logic.{◌⊎◌, inl, inr}
use mathlib.Core.Bool.{Bool, true, false, ◌&&◌, ◌||◌}
use mathlib.Core.Option.{Option, none, some}
use mathlib.Core.List.{List, [], ◌∷◌, ◌++◌}
use native.Mathlib.Omega.{arith}
use truth_market.Base.Tests.{◌==◌, if◌then◌else◌, Bool-cases, ==→eq}

abbrev pub Text : Type 0
Text = List ℕ

-- A literal of ASCII characters. `String` has its own `[]` and `∷`.
abbrev pub codes : String → Text
codes String.[] = []
codes (String.◌∷◌ c s) = code c ∷ codes s

abbrev pub same_text : Text → Text → Bool
same_text [] [] = true
same_text [] (y ∷ ys) = false
same_text (x ∷ xs) [] = false
same_text (x ∷ xs) (y ∷ ys) = x == y && same_text xs ys

pub same_text_refl : (s : Text) → same_text s s ≡ true
same_text_refl [] = refl
same_text_refl (x ∷ xs) = ground (arith, same_text_refl xs)

pub same_text→eq : (s t : Text) → same_text s t ≡ true → s ≡ t
same_text→eq [] [] h = refl
same_text→eq [] (y ∷ ys) h = absurd cc
same_text→eq (x ∷ xs) [] h = absurd cc
same_text→eq (x ∷ xs) (y ∷ ys) h = ground (arith, same_text→eq xs ys (ground arith))

abbrev pub has_byte : ℕ → Text → Bool
has_byte b [] = false
has_byte b (x ∷ xs) = x == b || has_byte b xs

abbrev before : ℕ → Option (Text × Text) → Option (Text × Text)
before x none = none
before x (some (s, t)) = some (x ∷ s, t)

-- strings.SplitN(s, sep, 2) for a separator of one character: `none` if it is not there.
unfoldable pub split_once : ℕ → Text → Option (Text × Text)
split_once b [] = none
split_once b (x ∷ xs) =
    let rest = before x (split_once b xs) in if x == b then some ([], xs) else rest

pub split_once-append :
    (b : ℕ) (s t : Text) → has_byte b s ≡ false → split_once b (s ++ b ∷ t) ≡ some (s, t)
unfolding split_once
split_once-append b [] t h = ground arith
split_once-append b (x ∷ xs) t h = ground (arith, split_once-append b xs t (ground arith))

same_pair : (q q' : Text × Text) → some q ≡ some q' → q ≡ q'
same_pair q q' h = cc

-- The parts of a text that splits.
before_cut :
    (x b : ℕ) (o : Option (Text × Text)) (s r xs : Text)
    → ((s' r' : Text) → o ≡ some (s', r') → xs ≡ s' ++ b ∷ r')
    → before x o ≡ some (s, r)
    → x ∷ xs ≡ s ++ b ∷ r
before_cut x b none s r xs f h = absurd cc
before_cut x b (some (s', r')) s r xs f h =
    ap (λ t. x ∷ t) (f s' r' refl)
    ∙ ap (λ (q : Text × Text). q.0 ++ b ∷ q.1) (same_pair (x ∷ s', r') (s, r) h)

if_first : {A : Type 0} (b : Bool) (x y : A) → b ≡ true → (if b then x else y) ≡ x
if_first true x y e = refl
if_first false x y e = absurd cc

if_second : {A : Type 0} (b : Bool) (x y : A) → b ≡ false → (if b then x else y) ≡ y
if_second true x y e = absurd cc
if_second false x y e = refl

pub split_once-inverse : (b : ℕ) (t s r : Text) → split_once b t ≡ some (s, r) → t ≡ s ++ b ∷ r
unfolding split_once
split_once-inverse b [] s r h = absurd cc
split_once-inverse b (x ∷ xs) s r h = by_head (split_once-inverse b xs) (Bool-cases (x == b)) h
  where
    by_head :
        ((s' r' : Text) → split_once b xs ≡ some (s', r') → xs ≡ s' ++ b ∷ r')
        → ((x == b) ≡ true) ⊎ ((x == b) ≡ false)
        → (if x == b then some ([], xs) else before x (split_once b xs)) ≡ some (s, r)
        → x ∷ xs ≡ s ++ b ∷ r
    by_head f (inl q) k =
        ap (λ y. y ∷ xs) (==→eq x b q)
        ∙ ap (λ (p : Text × Text). p.0 ++ b ∷ p.1)
            (same_pair ([], xs) (s, r) (sym (if_first (x == b) _ _ q) ∙ k))
    by_head f (inr q) k =
        before_cut x b (split_once b xs) s r xs f (sym (if_second (x == b) _ _ q) ∙ k)
