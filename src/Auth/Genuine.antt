-- ===== src/Auth/Genuine.antt =====
-- What the tokens are that ValidateToken accepts.
use truth_market.Base.{
  ℕ, ◌≡◌, refl, ap, ◌∙◌, Bool, true, false, Option, none, some, List, [], ◌∷◌, ◌++◌, if◌then◌else◌,
  Result, ok, err, arith,
}
use truth_market.Base.Int.{ℤ, pos, ltb_ℤ, ◌≤ℤ◌}
use truth_market.Base.Maps.{lookup}
use truth_market.Base.Texts.{Text, codes, same_text, same_text→eq, split_once, split_once-inverse}
use truth_market.Domain.{Ident, User}
use truth_market.Errors.{Error, is_code, code_from_error}
use truth_market.Auth.Tokens.{
  JsonValue, json_number, json_string, json_other, Codec, signature_of, split_token, second_cut,
  third_cut, check_sub, check_claims, check_object, check_payload, check_parts, known_user,
  subject_user, validate_token,
}
use truth_market.Auth.Users.{found, user_by_id}

-- What a token that is accepted under a name is: its signature is that of its other two parts under
-- the secret, and its payload has a claim that it has not expired and the name as its subject.
pub record IsGenuine (c : Codec) (secret : Text) (now : ℕ) (token name : Text) : Type 0 where
  pub header : Text
  pub payload : Text
  pub signed :
      token ≡ header ++ b'.' ∷ (payload ++ b'.' ∷ signature_of c secret (header ++ b'.' ∷ payload))
  pub bytes : Text
  pub decoded : c.decode payload ≡ some bytes
  pub object : Text → Option JsonValue
  pub parsed : c.unmarshal bytes ≡ some object
  pub expiry : ℤ
  pub expires : object (codes "exp") ≡ some (json_number expiry)
  pub fresh : pos now ≤ℤ expiry
  pub subject : object (codes "sub") ≡ some (json_string name)

if_refused :
    {A : Type 0} (b : Bool) (r : Result Error A) (e : Error) (a : A)
    → (if b then r else err e) ≡ ok a
    → (b ≡ true) × (r ≡ ok a)
if_refused true r e a h = (refl, h)
if_refused false r e a h = absurd cc

unless_refused :
    {A : Type 0} (b : Bool) (r : Result Error A) (e : Error) (a : A)
    → (if b then err e else r) ≡ ok a
    → (b ≡ false) × (r ≡ ok a)
unless_refused false r e a h = (refl, h)
unless_refused true r e a h = absurd cc

same_parts : (q q' : Text × Text × Text) → some q ≡ some q' → q ≡ q'
same_parts q q' h = cc

split_token-inverse :
    (token h p s : Text) → split_token token ≡ some (h, p, s) → token ≡ h ++ b'.' ∷ (p ++ b'.' ∷ s)
unfolding split_token
split_token-inverse token h p s e = cut_twice (split_once b'.' token) refl e
  where
    cut_again :
        (h' rest : Text) (o : Option (Text × Text))
        → split_once b'.' rest ≡ o
        → third_cut h' o ≡ some (h, p, s)
        → h' ++ b'.' ∷ rest ≡ h ++ b'.' ∷ (p ++ b'.' ∷ s)
    cut_again h' rest none q k = absurd cc
    cut_again h' rest (some (p', s')) q k =
        ap (λ t. h' ++ b'.' ∷ t) (split_once-inverse b'.' rest p' s' q)
        ∙ ap (λ (w : Text × Text × Text). w.0 ++ b'.' ∷ (w.1 ++ b'.' ∷ w.2))
            (same_parts (h', p', s') (h, p, s) k)

    cut_twice :
        (o : Option (Text × Text))
        → split_once b'.' token ≡ o
        → second_cut o ≡ some (h, p, s)
        → token ≡ h ++ b'.' ∷ (p ++ b'.' ∷ s)
    cut_twice none q k = absurd cc
    cut_twice (some (h', rest)) q k =
        split_once-inverse b'.' token h' rest q ∙ cut_again h' rest (split_once b'.' rest) refl k

check_sub-ok :
    (v : Option JsonValue) (name : Text) → check_sub v ≡ ok name → v ≡ some (json_string name)
unfolding check_sub
check_sub-ok none name h = absurd cc
check_sub-ok (some (json_number n)) name h = absurd cc
check_sub-ok (some (json_string [])) name h = absurd cc
check_sub-ok (some (json_string (x ∷ xs))) name h = cc
check_sub-ok (some json_other) name h = absurd cc

check_claims-ok :
    (now : ℕ) (claims : Text → Option JsonValue) (v : Option JsonValue) (name : Text)
    → check_claims now claims v ≡ ok name
    → (e : ℤ) × (v ≡ some (json_number e))
      × (pos now ≤ℤ e)
      × (claims (codes "sub") ≡ some (json_string name))
unfolding check_claims
check_claims-ok now claims none name h = absurd cc
check_claims-ok now claims (some (json_string s)) name h = absurd cc
check_claims-ok now claims (some json_other) name h = absurd cc
check_claims-ok now claims (some (json_number e)) name h =
    let (q, k) = unless_refused (ltb_ℤ e (pos now)) (check_sub (claims (codes "sub"))) _ name h in
    (e, refl, ground (arith, q), check_sub-ok (claims (codes "sub")) name k)

check_object-IsGenuine :
    (c : Codec) (secret : Text) (now : ℕ) (token name h p : Text) (bytes : Text)
    (o : Option (Text → Option JsonValue))
    → token ≡ h ++ b'.' ∷ (p ++ b'.' ∷ signature_of c secret (h ++ b'.' ∷ p))
    → c.decode p ≡ some bytes
    → c.unmarshal bytes ≡ o
    → check_object now o ≡ ok name
    → IsGenuine c secret now token name
check_object-IsGenuine c secret now token name h p bytes none t d u k = absurd cc
check_object-IsGenuine c secret now token name h p bytes (some claims) t d u k =
    let (e, x, f, n) = check_claims-ok now claims (claims (codes "exp")) name k in
    record {
      header = h;
      payload = p;
      signed = t;
      bytes = bytes;
      decoded = d;
      object = claims;
      parsed = u;
      expiry = e;
      expires = x;
      fresh = f;
      subject = n;
    }

check_payload-IsGenuine :
    (c : Codec) (secret : Text) (now : ℕ) (token name h p : Text) (o : Option Text)
    → token ≡ h ++ b'.' ∷ (p ++ b'.' ∷ signature_of c secret (h ++ b'.' ∷ p))
    → c.decode p ≡ o
    → check_payload c now o ≡ ok name
    → IsGenuine c secret now token name
check_payload-IsGenuine c secret now token name h p none t d k = absurd cc
check_payload-IsGenuine c secret now token name h p (some bytes) t d k =
    check_object-IsGenuine c secret now token name h p bytes (c.unmarshal bytes) t d refl k

check_parts-IsGenuine :
    (c : Codec) (secret : Text) (now : ℕ) (token name : Text) (parts : Option (Text × Text × Text))
    → split_token token ≡ parts
    → check_parts c secret now parts ≡ ok name
    → IsGenuine c secret now token name
unfolding check_parts
check_parts-IsGenuine c secret now token name none e k = absurd cc
check_parts-IsGenuine c secret now token name (some (h, p, s)) e k =
    let (q, r) = if_refused (same_text s (signature_of c secret (h ++ b'.' ∷ p))) _ _ name k in
    check_payload-IsGenuine c secret now token name h p (c.decode p)
      (split_token-inverse token h p s e
        ∙ ap (λ t. h ++ b'.' ∷ (p ++ b'.' ∷ t))
            (same_text→eq s (signature_of c secret (h ++ b'.' ∷ p)) q))
      refl r

-- Whatever token ValidateToken accepts is genuine: its third part is the signature of the first two
-- under the secret, its payload claims an expiry that has not passed and a subject, and the user is
-- the one of the table with that identifier.
pub validate_token-IsGenuine :
    (c : Codec) (secret : Text) (now : ℕ) (token : Text) (users : List (Ident × User)) (u : User)
    → validate_token c secret now token users ≡ ok u
    → (name : Text) × IsGenuine c secret now token name × (lookup (c.ident_of name) users ≡ some u)
unfolding validate_token user_by_id is_code code_from_error
validate_token-IsGenuine c secret now token users u h =
    from_subject (check_parts c secret now (split_token token)) refl h
  where
    from_user : (o : Option User) → known_user (found o) ≡ ok u → o ≡ some u
    from_user none k = absurd cc
    from_user (some v) k = cc

    from_subject :
        (r : Result Error Text)
        → check_parts c secret now (split_token token) ≡ r
        → subject_user c users r ≡ ok u
        → (name : Text) × IsGenuine c secret now token name
          × (lookup (c.ident_of name) users ≡ some u)
    from_subject (err e) q k = absurd cc
    from_subject (ok name) q k = (
      name,
      check_parts-IsGenuine c secret now token name (split_token token) refl q,
      from_user (lookup (c.ident_of name) users) k,
    )
