-- ===== src/Auth/Laws.antt =====
-- Tokens: what GenerateJWT signs against what ValidateToken accepts.
use truth_market.Base.{
  ℕ, ◌+◌, ◌<◌, ◌≡◌, refl, ap, ◌∙◌, Bool, true, false, Option, some, List, ◌∷◌, ◌++◌, append_assoc,
  ltb, if◌then◌else◌, ok, err, arith,
}
use Prim.Native.Nat.{◌^◌}
use truth_market.Base.Int.{pos}
use truth_market.Base.Maps.{lookup}
use truth_market.Base.Texts.{Text, codes, same_text_refl, has_byte, split_once-append}
use truth_market.Domain.{Ident, User}
use truth_market.Errors.{app_error, unauthorized}
use truth_market.Auth.Tokens.{
  JsonValue, json_number, json_string, Claims, Codec, jwt_header, signature_of, day, claims_for,
  generate_jwt, split_token, check_sub, check_claims, check_object, check_payload, check_parts,
  known_user, subject_user, validate_token,
}
use truth_market.Auth.Users.{found, user_by_id}

-- What the code relies on: decoding undoes encoding, the alphabet of base64 has no dot, and JSON
-- keeps the strings and the numbers below 2 ^ 53 of a payload; a user's identifier is a text that is
-- not empty.
pub record IsCodec (c : Codec) : Type 0 where
  pub decode_encode : (x : Text) → c.decode (c.encode x) ≡ some x
  pub encode_dotless : (x : Text) → has_byte b'.' (c.encode x) ≡ false
  pub unmarshal_marshal :
      (claims : Claims)
      → claims.exp < 2 ^ 53
      → (object : (Text → Option JsonValue)) × (c.unmarshal (c.marshal claims) ≡ some object)
        × (object (codes "exp") ≡ some (json_number (pos claims.exp)))
        × (object (codes "sub") ≡ some (json_string claims.sub))
  pub ident_of_name : (i : Ident) → c.ident_of (c.name_of i) ≡ i
  pub name_filled : (i : Ident) → (x : ℕ) × (xs : Text) × (c.name_of i ≡ x ∷ xs)

split_token-parts :
    (h p s : Text)
    → has_byte b'.' h ≡ false
    → has_byte b'.' p ≡ false
    → split_token ((h ++ b'.' ∷ p) ++ b'.' ∷ s) ≡ some (h, p, s)
unfolding split_token
split_token-parts h p s a b =
    rw
      (
        append_assoc h (b'.' ∷ p) (b'.' ∷ s),
        split_once-append b'.' h (p ++ b'.' ∷ s) a,
        split_once-append b'.' p s b,
      )
      refl

jwt_header_dotless : (c : Codec) → IsCodec c → has_byte b'.' (jwt_header c) ≡ false
unfolding jwt_header
jwt_header_dotless c v = v.encode_dotless _

-- What the checks on a payload make of the claims of a user.
payload_check :
    (c : Codec) (now later : ℕ) (i : Ident)
    → IsCodec c
    → now + day < 2 ^ 53
    → check_payload c later (some (c.marshal (claims_for c now i)))
      ≡ (if ltb (now + day) later then err (app_error unauthorized) else ok (c.name_of i))
unfolding check_claims check_sub
payload_check c now later i v h =
    let (object, u, e, s) = v.unmarshal_marshal (claims_for c now i) h in
    let (x, xs, n) = v.name_filled i in
    ap (check_object later) u
    ∙ (ap (check_claims later object) e
        ∙ rw (s, n)
            (ap (λ b. if b then err (app_error unauthorized) else ok (x ∷ xs)) (ground arith)))

-- A token that GenerateJWT signs for a user of the table is accepted by ValidateToken, with that user,
-- for a day and no longer, and is then refused as unauthorized: so it is with every codec that keeps
-- its promises, for times that a float64 holds.
pub validate_token-generate_jwt :
    (c : Codec) (secret : Text) (now later : ℕ) (u : User) (users : List (Ident × User))
    → IsCodec c
    → now + day < 2 ^ 53
    → lookup u.id users ≡ some u
    → validate_token c secret later (generate_jwt c secret now u.id) users
      ≡ (if ltb (now + day) later then err (app_error unauthorized) else ok u)
unfolding validate_token generate_jwt check_parts user_by_id
validate_token-generate_jwt c secret now later u users v h known =
    ap (λ parts. subject_user c users (check_parts c secret later parts))
      (split_token-parts (jwt_header c) payload (signature_of c secret input)
        (jwt_header_dotless c v) (v.encode_dotless (c.marshal (claims_for c now u.id))))
    ∙ (ap
          (λ b.
            subject_user c users (
              if b then check_payload c later (c.decode payload) else err (app_error unauthorized)))
          (same_text_refl (signature_of c secret input))
        ∙ (ap (λ o. subject_user c users (check_payload c later o))
              (v.decode_encode (c.marshal (claims_for c now u.id)))
            ∙ (ap (subject_user c users) (payload_check c now later u.id v h)
                ∙ by_time (ltb (now + day) later))))
  where
    payload : Text
    payload = c.encode (c.marshal (claims_for c now u.id))

    input : Text
    input = jwt_header c ++ b'.' ∷ payload

    by_time :
        (b : Bool)
        → subject_user c users (if b then err (app_error unauthorized) else ok (c.name_of u.id))
          ≡ (if b then err (app_error unauthorized) else ok u)
    by_time true = refl
    by_time false =
        ap (λ i. known_user (found (lookup i users))) (v.ident_of_name u.id)
        ∙ ap (λ o. known_user (found o)) known
