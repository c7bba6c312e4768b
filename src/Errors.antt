-- ===== src/Errors.antt =====
-- pkg/errors/errors.go. An error of the services is an AppError, alone or over a cause, or one of
-- fmt.Errorf, with or without a cause under %w. The codes are those of the package's errors; the
-- messages are left out. `unwrap`, `errors_is` and the search of errors.As are the chain walk of Go's
-- standard errors package.
use truth_market.Base.{
  ℕ, ◌≡◌, refl, ap, ◌∙◌, Bool, true, false, ◌||◌, not, Option, none, some, ◌==◌, arith,
}

pub data ErrorCode : Type 0 where
  not_found unauthorized forbidden bad_request conflict internal_error : ErrorCode
  insufficient_balance market_closed invalid_price_code : ErrorCode

-- A number for each code, to compare them.
abbrev code_number : ErrorCode → ℕ
code_number not_found = 0
code_number unauthorized = 1
code_number forbidden = 2
code_number bad_request = 3
code_number conflict = 4
code_number internal_error = 5
code_number insufficient_balance = 6
code_number market_closed = 7
code_number invalid_price_code = 8

abbrev pub same_code : ErrorCode → ErrorCode → Bool
same_code a b = code_number a == code_number b

pub data Error : Type 0 where
  app_error : ErrorCode → Error
  wrap : Error → ErrorCode → Error
  plain_error : Error
  fmt_wrap : Error → Error

unfoldable pub unwrap : Error → Option Error
unwrap (app_error c) = none
unwrap (wrap e c) = some e
unwrap plain_error = none
unwrap (fmt_wrap e) = some e

-- The code of the first AppError of the chain; the empty code is `none`.
unfoldable pub code_from_error : Error → Option ErrorCode
code_from_error (app_error c) = some c
code_from_error (wrap e c) = some c
code_from_error plain_error = none
code_from_error (fmt_wrap e) = code_from_error e

abbrev has_code : ErrorCode → Option ErrorCode → Bool
has_code c none = false
has_code c (some d) = same_code d c

-- IsNotFound and its eight companions, one for each code.
unfoldable pub is_code : ErrorCode → Error → Bool
unfolding code_from_error
is_code c e = has_code c (code_from_error e)

-- `AppError.Is`, whose target is searched by errors.As.
unfoldable pub app_error_is : ErrorCode → Error → Bool
unfolding code_from_error
app_error_is c target = has_code c (code_from_error target)

-- errors.Is(err, target): the chain of `err` has an AppError that the target matches.
unfoldable pub errors_is : Error → Error → Bool
unfolding app_error_is
errors_is (app_error c) t = app_error_is c t
errors_is (wrap e c) t = let rest = errors_is e t in app_error_is c t || rest
errors_is plain_error t = false
errors_is (fmt_wrap e) t = errors_is e t

same_code_sym : (c d : ErrorCode) → same_code c d ≡ same_code d c
same_code_sym c d = ground arith

not_or : (a b : Bool) → (a ≡ true → b ≡ true) → (not a || b) ≡ true
not_or true b h = h refl
not_or false b h = refl

is_code-implies :
    (c : ErrorCode) (e : Error) → is_code c e ≡ true → errors_is e (app_error c) ≡ true
unfolding is_code errors_is
is_code-implies c (app_error d) h = same_code_sym c d ∙ h
is_code-implies c (wrap e d) h = ap (λ b. b || errors_is e (app_error c)) (same_code_sym c d ∙ h)
is_code-implies c plain_error h = h
is_code-implies c (fmt_wrap e) h = is_code-implies c e h

-- A helper such as IsNotFound reports only errors that errors.Is matches with the sentinel of its
-- code, and fmt.Errorf with %w does not change what it reports. Below an AppError of another code it
-- reports nothing, whatever the cause, where errors.Is still answers for the cause.
pub is_code-errors_is :
    (c d : ErrorCode) (e : Error)
    → same_code c d ≡ false
    → ((not (is_code c e) || errors_is e (app_error c)) ≡ true)
      × (is_code c (fmt_wrap e) ≡ is_code c e)
      × (is_code c (wrap e d) ≡ false)
      × (errors_is (wrap e d) (app_error c) ≡ errors_is e (app_error c))
unfolding is_code errors_is
is_code-errors_is c d e ne = (
  not_or (is_code c e) (errors_is e (app_error c)) (is_code-implies c e),
  refl,
  same_code_sym d c ∙ ne,
  ap (λ b. b || errors_is e (app_error c)) ne,
)
