-- ===== src/Auth/Tokens.antt =====
-- services/auth-svc/internal/service/auth.go: generateJWT and ValidateToken. Base64, HMAC and JSON are
-- arguments, and so is the clock, in seconds.
use truth_market.Base.{ℕ, ◌+◌, Option, none, some, List, ◌∷◌, ◌++◌, if◌then◌else◌, Result, ok, err}
use truth_market.Base.Int.{ℤ, pos, ltb_ℤ}
use truth_market.Base.Texts.{Text, codes, same_text, split_once}
use truth_market.Domain.{Ident, User}
use truth_market.Errors.{Error, app_error, fmt_wrap, unauthorized, not_found, is_code}
use truth_market.Auth.Users.{user_by_id}

-- A value of a JSON object. A number is what `int64` makes of it.
pub data JsonValue : Type 0 where
  json_number : ℤ → JsonValue
  json_string : Text → JsonValue
  json_other : JsonValue

-- The payload of a token.
pub record Claims : Type 0 where
  pub sub : Text
  pub exp : ℕ
  pub iat : ℕ

-- Base64 without padding, HMAC-SHA256, and JSON with the keys of an object; `none` is an error.
pub record Codec : Type 0 where
  pub encode : Text → Text
  pub decode : Text → Option Text
  pub mac : Text → Text → Text
  pub marshal : Claims → Text
  pub unmarshal : Text → Option (Text → Option JsonValue)
  pub name_of : Ident → Text
  pub ident_of : Text → Ident

unfoldable pub jwt_header : Codec → Text
jwt_header c = c.encode (codes "{\"alg\":\"HS256\",\"typ\":\"JWT\"}")

abbrev pub signature_of : Codec → Text → Text → Text
signature_of c secret input = c.encode (c.mac secret input)

abbrev pub day : ℕ
day = 86400

abbrev pub claims_for : Codec → ℕ → Ident → Claims
claims_for c now i = record { sub = c.name_of i; exp = now + day; iat = now }

unfoldable pub generate_jwt : Codec → Text → ℕ → Ident → Text
unfolding jwt_header
generate_jwt c secret now i =
    let input = jwt_header c ++ b'.' ∷ c.encode (c.marshal (claims_for c now i)) in
    input ++ b'.' ∷ signature_of c secret input

abbrev refused : {A : Type 0} → Result Error A
refused = err (app_error unauthorized)

abbrev pub third_cut : Text → Option (Text × Text) → Option (Text × Text × Text)
third_cut h none = none
third_cut h (some (p, s)) = some (h, p, s)

abbrev pub second_cut : Option (Text × Text) → Option (Text × Text × Text)
second_cut none = none
second_cut (some (h, rest)) = third_cut h (split_once b'.' rest)

-- strings.SplitN(token, ".", 3)
unfoldable pub split_token : Text → Option (Text × Text × Text)
unfolding split_once
split_token token = second_cut (split_once b'.' token)

unfoldable pub check_sub : Option JsonValue → Result Error Text
check_sub (some (json_string (x ∷ xs))) = ok (x ∷ xs)
check_sub _ = refused

unfoldable pub check_claims : ℕ → (Text → Option JsonValue) → Option JsonValue → Result Error Text
unfolding check_sub
check_claims now claims (some (json_number e)) =
    if ltb_ℤ e (pos now) then refused else check_sub (claims (codes "sub"))
check_claims now claims _ = refused

abbrev pub check_object : ℕ → Option (Text → Option JsonValue) → Result Error Text
check_object now none = refused
check_object now (some claims) = check_claims now claims (claims (codes "exp"))

abbrev pub check_payload : Codec → ℕ → Option Text → Result Error Text
check_payload c now none = refused
check_payload c now (some bytes) = check_object now (c.unmarshal bytes)

-- The subject of a token that passes the checks on its parts.
unfoldable pub check_parts : Codec → Text → ℕ → Option (Text × Text × Text) → Result Error Text
unfolding check_claims
check_parts c secret now none = refused
check_parts c secret now (some (h, p, s)) =
    if same_text s (signature_of c secret (h ++ b'.' ∷ p))
    then check_payload c now (c.decode p)
    else refused

abbrev pub known_user : Result Error User → Result Error User
known_user (ok u) = ok u
known_user (err e) = if is_code not_found e then refused else err (fmt_wrap e)

abbrev pub subject_user : Codec → List (Ident × User) → Result Error Text → Result Error User
subject_user c users (ok name) = known_user (user_by_id (c.ident_of name) users)
subject_user c users (err e) = err e

-- `AuthService.ValidateToken`
unfoldable pub validate_token : Codec → Text → ℕ → Text → List (Ident × User) → Result Error User
unfolding split_token check_parts user_by_id
validate_token c secret now token users =
    subject_user c users (check_parts c secret now (split_token token))
