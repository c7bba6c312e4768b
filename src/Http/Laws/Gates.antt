-- ===== src/Http/Laws/Gates.antt =====
-- Who gets past the authentication middleware, and the creation of an agent user.
use truth_market.Base.{
  ℕ, ◌≡◌, refl, Bool, true, false, Option, none, some, [], ◌∷◌, ◌++◌, ◌==◌, if◌then◌else◌, inl, inr,
  ◌⊎◌,
}
use truth_market.Base.Texts.{Text, split_once, split_once-inverse}
use truth_market.Domain.{Ident, User}
use truth_market.Errors.{code_from_error}
use truth_market.Auth.{AuthState, verify_siwe}
use truth_market.Auth.Tokens.{Codec}
use truth_market.Auth.Messages.{extract_nonce, nonce_in, split_all, trim_left, trim_right}
use truth_market.Auth.Sessions.{SessionStore}
use truth_market.Rpc.{to_grpc_error}
use truth_market.Http.{failed, handle_grpc_error}
use truth_market.Http.Admin.{require_admin, http_create_agent_user}
use truth_market.Http.Middleware.{passed, aborted, or_aborted, bearer_gate, auth_gate}

pub if_not : {A : Type 0} (b : Bool) (x y : A) → b ≡ false → (if b then x else y) ≡ y
if_not true x y e = absurd cc
if_not false x y e = refl

-- An administrator's request to create an agent user never succeeds: with a wallet address it is
-- refused as unauthorized, since its sign-in has no message with a nonce, and nothing changes.
pub http_create_agent_user-fails :
    {S : Type 0} (store : SessionStore S) (c : Codec) (secret : Text) (now : ℕ) (i : Ident)
    (wallet : Ident) (t : AuthState S)
    → (wallet == 0) ≡ false
    → http_create_agent_user store c secret now i (some true) (some wallet) t ≡ (failed 401, t)
unfolding http_create_agent_user require_admin verify_siwe extract_nonce nonce_in split_all
    trim_left trim_right to_grpc_error handle_grpc_error code_from_error
http_create_agent_user-fails store c secret now i wallet t h = if_not (wallet == 0) _ _ h

-- A request that the authentication middleware lets pass carries the user of an API key that the
-- authentication service knows or, if it has no key, of a bearer token that the service knows; a key
-- that the service does not know is not made up for by a token.
pub auth_gate-passed :
    (is_bearer : Text → Bool) (validate_key validate_token : Text → Option User)
    (key authorization : Text) (u : User)
    → auth_gate is_bearer validate_key validate_token key authorization ≡ passed u
    → (validate_key key ≡ some u)
      ⊎ ((key ≡ [])
          × ((scheme : Text) × (token : Text) × (authorization ≡ scheme ++ b' ' ∷ token)
              × (is_bearer scheme ≡ true)
              × (validate_token token ≡ some u)))
unfolding auth_gate
auth_gate-passed is_bearer validate_key validate_token [] [] u h = absurd cc
auth_gate-passed is_bearer validate_key validate_token (k ∷ ks) authorization u h =
    inl (known (validate_key (k ∷ ks)) h)
  where
    known : (o : Option User) → or_aborted o ≡ passed u → o ≡ some u
    known none q = absurd cc
    known (some v) q = cc
auth_gate-passed is_bearer validate_key validate_token [] (x ∷ xs) u h =
    by_parts (split_once b' ' (x ∷ xs)) refl h
  where
    known : (o : Option User) → or_aborted o ≡ passed u → o ≡ some u
    known none q = absurd cc
    known (some v) q = cc

    by_scheme :
        (b : Bool) (o : Option User)
        → (if b then or_aborted o else aborted 401) ≡ passed u
        → (b ≡ true) × (o ≡ some u)
    by_scheme true o q = (refl, known o q)
    by_scheme false o q = absurd cc

    by_parts :
        (o : Option (Text × Text))
        → split_once b' ' (x ∷ xs) ≡ o
        → bearer_gate is_bearer validate_token o ≡ passed u
        → (validate_key [] ≡ some u)
          ⊎ ((◌≡◌ {A = Text} [] [])
              × ((scheme : Text) × (token : Text) × (x ∷ xs ≡ scheme ++ b' ' ∷ token)
                  × (is_bearer scheme ≡ true)
                  × (validate_token token ≡ some u)))
    by_parts none e q = absurd cc
    by_parts (some (scheme, token)) e q =
        let (b, v) = by_scheme (is_bearer scheme) (validate_token token) q in
        inr (refl, (scheme, token, split_once-inverse b' ' (x ∷ xs) scheme token e, b, v))
