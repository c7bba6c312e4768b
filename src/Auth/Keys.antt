-- ===== src/Auth/Keys.antt =====
-- services/auth-svc/internal/service/apikey.go on infra/postgres/apikey_repo.go. SHA-256 in hex digits
-- and the random draws are arguments; the rows of the table stand newest first, as
-- ListAPIKeysByUser orders them, with the hash and the identifier unique.
pub mod Laws
use truth_market.Base.{
  ℕ, ◌≡◌, ◌∙◌, Bool, true, false, ◌&&◌, ◌||◌, Option, none, some, List, [], ◌∷◌, ◌++◌, ◌==◌,
  if◌then◌else◌, take, Result, ok, err, ◌⊎◌,
}
use truth_market.Base.Texts.{Text, codes, same_text}
use truth_market.Domain.{Ident, User}
use truth_market.Errors.{
  Error, app_error, plain_error, fmt_wrap, unauthorized, forbidden, not_found, is_code,
}
use truth_market.Auth.Users.{user_by_id}

pub record ApiKey : Type 0 where
  pub id : Ident
  pub user_id : Ident
  pub key_hash : Text
  pub key_prefix : Text
  pub is_active : Bool
  pub expires_at : Option ℕ

abbrev pub with_hash : Text → List ApiKey → Option ApiKey
with_hash h [] = none
with_hash h (k ∷ ks) = let rest = with_hash h ks in if same_text k.key_hash h then some k else rest

abbrev pub with_id : Ident → List ApiKey → Option ApiKey
with_id i [] = none
with_id i (k ∷ ks) = let rest = with_id i ks in if k.id == i then some k else rest

abbrev found_row : Option ApiKey → Result Error ApiKey
found_row none = err (fmt_wrap plain_error)
found_row (some k) = ok k

-- `APIKeyRepo.GetByHash`, which gives a missing row no code.
unfoldable pub get_by_hash : Text → List ApiKey → Result Error ApiKey
get_by_hash h keys = found_row (with_hash h keys)

abbrev insert_key :
    ApiKey → List ApiKey → Option ApiKey → Option ApiKey → Result Error (Unit {0}) × List ApiKey
insert_key k keys none none = (ok tt, k ∷ keys)
insert_key k keys _ _ = (err (fmt_wrap plain_error), keys)

-- `APIKeyRepo.Create`
unfoldable pub create_key : ApiKey → List ApiKey → Result Error (Unit {0}) × List ApiKey
create_key k keys = insert_key k keys (with_hash k.key_hash keys) (with_id k.id keys)

abbrev pub deactivated : ApiKey → ApiKey
deactivated k = record k { is_active = false }

abbrev pub revoke_in : Ident → List ApiKey → List ApiKey
revoke_in i [] = []
revoke_in i (k ∷ ks) =
    let rest = revoke_in i ks in if k.id == i then deactivated k ∷ ks else k ∷ rest

-- The first key of a user with a prefix, as ListByUser and the loop of RevokeAPIKey find it.
abbrev pub key_of : Ident → Text → List ApiKey → Option ApiKey
key_of u prefix [] = none
key_of u prefix (k ∷ ks) =
    let rest = key_of u prefix ks in
    if (k.user_id == u) && same_text k.key_prefix prefix then some k else rest

abbrev pub raw_key_of : Text → Text
raw_key_of draw = codes "tm_" ++ draw

abbrev pub new_key : (Text → Text) → Text → Ident → Ident → ApiKey
new_key hash draw i u = record {
  id = i;
  user_id = u;
  key_hash = hash (raw_key_of draw);
  key_prefix = take 10 (raw_key_of draw);
  is_active = true;
  expires_at = none;
}

abbrev stored :
    Text
    → ApiKey
    → Result Error (Unit {0}) × List ApiKey
    → Result Error (Text × ApiKey) × List ApiKey
stored raw k (ok _, keys) = (ok (raw, k), keys)
stored raw k (err e, keys) = (err (fmt_wrap e), keys)

-- `APIKeyService.GenerateAPIKey`, for a draw of 48 hex digits.
unfoldable pub generate_api_key :
    (Text → Text) → Text → Ident → Ident → List ApiKey → Result Error (Text × ApiKey) × List ApiKey
unfolding create_key
generate_api_key hash draw i u keys =
    stored (raw_key_of draw) (new_key hash draw i u) (create_key (new_key hash draw i u) keys)

abbrev owner : Result Error User → Result Error User
owner (ok u) = ok u
owner (err e) = err (fmt_wrap e)

abbrev key_user : List (Ident × User) → Result Error ApiKey → Result Error User
key_user users (err e) =
    if is_code not_found e then err (app_error unauthorized) else err (fmt_wrap e)
key_user users (ok k) =
    if k.is_active then owner (user_by_id k.user_id users) else err (app_error unauthorized)

-- `APIKeyService.ValidateAPIKey`
unfoldable pub validate_api_key :
    (Text → Text) → Text → List ApiKey → List (Ident × User) → Result Error User
unfolding get_by_hash user_by_id
validate_api_key hash raw keys users = key_user users (get_by_hash (hash raw) keys)

abbrev pub revoke_found : List ApiKey → Option ApiKey → Result Error (Unit {0}) × List ApiKey
revoke_found keys none = (err (app_error forbidden), keys)
revoke_found keys (some k) = (ok tt, revoke_in k.id keys)

-- `APIKeyService.RevokeAPIKey`
unfoldable pub revoke_api_key : Ident → Text → List ApiKey → Result Error (Unit {0}) × List ApiKey
revoke_api_key u prefix keys = revoke_found keys (key_of u prefix keys)
