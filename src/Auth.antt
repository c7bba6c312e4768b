-- ===== src/Auth.antt =====
-- services/auth-svc/internal/service/auth.go on the session store of pkg/repository and the user
-- repository of infra/postgres. Texts are lists of characters; a user's identifier is a number with
-- its text as `name_of`. Base64, HMAC, JSON and the random draws are arguments, and so is the clock, in
-- seconds. The signature check is the simplified one that the code has. A delete of the session
-- store may fail; other failures of the stores' connections are left out.
pub mod Sessions
pub mod Messages
pub mod Users
pub mod Tokens
pub mod Keys
pub mod Nonces
pub mod SignIn
pub mod Replay
pub mod Laws
pub mod Genuine
mod Tests
use truth_market.Base.{
  ℕ, ◌+◌, Bool, true, ◌&&◌, ◌||◌, Option, none, some, List, [], ◌∷◌, ◌++◌, ◌==◌, if◌then◌else◌,
  Result, ok, err,
}
use truth_market.Base.Maps.{lookup}
use truth_market.Base.Texts.{Text, codes, same_text}
use truth_market.Domain.{Ident, User}
use truth_market.Errors.{Error, app_error, wrap, fmt_wrap, unauthorized, not_found, is_code}
use truth_market.Auth.Sessions.{SessionStore}
use truth_market.Auth.Messages.{extract_nonce}
use truth_market.Auth.Users.{user_by_wallet, new_user, create_row}
use truth_market.Auth.Tokens.{Codec, generate_jwt}

-- A state of the service: the sessions, and the rows of the users.
pub record AuthState (S : Type 0) : Type 0 where
  pub sessions : S
  pub users : List (Ident × User)

abbrev pub nonce_key : Text → Text
nonce_key nonce = codes "nonce:" ++ nonce

abbrev pub has_suffix : Text → Text → Bool
has_suffix t [] = same_text t []
has_suffix t (x ∷ xs) = same_text t (x ∷ xs) || has_suffix t xs

-- The signature that phase 1 refuses.
abbrev pub bad_signature : Text → Bool
bad_signature [] = true
bad_signature (x ∷ xs) = has_suffix (codes "_bad") (x ∷ xs)

abbrev refused : {A : Type 0} → Result Error A
refused = err (app_error unauthorized)

module _ {S : Type 0} (store : SessionStore S) (c : Codec) (secret : Text) (now : ℕ) where
  -- The nonce is drawn at random; it is good for five minutes.
  unfoldable pub generate_nonce : Text → AuthState S → Result Error Text × AuthState S
  generate_nonce nonce s = (
    ok nonce,
    record s { sessions = store.set now (nonce_key nonce) (codes "pending") 300 s.sessions },
  )

  abbrev pub signed_in : Result Error User × AuthState S → Result Error (User × Text) × AuthState S
  signed_in (ok u, s) = (ok (u, generate_jwt c secret now u.id), s)
  signed_in (err e, s) = (err e, s)

  abbrev pub created :
      User
      → AuthState S
      → Result Error (Unit {0}) × List (Ident × User)
      → Result Error User × AuthState S
  created u s (ok _, users) = (ok u, record s { users = users })
  created u s (err e, users) = (err (fmt_wrap e), s)

  -- The user of the wallet, or a new one under a random identifier.
  abbrev pub user_or_new :
      Ident → Ident → AuthState S → Result Error User → Result Error User × AuthState S
  user_or_new i wallet s (ok u) = (ok u, s)
  user_or_new i wallet s (err e) =
      if is_code not_found e
      then created (new_user i wallet) s (create_row (new_user i wallet) (lookup i s.users) s.users)
      else (err (fmt_wrap e), s)

  -- From the signature on, after the delete of the nonce.
  unfoldable pub sign_in :
      Ident → Text → Ident → AuthState S → Result Error (User × Text) × AuthState S
  unfolding generate_jwt user_by_wallet
  sign_in i signature wallet s =
      if bad_signature signature
      then (refused, s)
      else signed_in (user_or_new i wallet s (user_by_wallet wallet s.users))

  -- What the delete of the nonce answers is dropped: the call goes on with the state that it leaves.
  abbrev pub with_session :
      Ident
      → Text
      → Text
      → Ident
      → AuthState S
      → Option Text
      → Result Error (User × Text) × AuthState S
  with_session i nonce signature wallet s none = (refused, s)
  with_session i nonce signature wallet s (some _) =
      sign_in i signature wallet
        (record s { sessions = (store.delete (nonce_key nonce) s.sessions).1 })

  abbrev pub with_nonce :
      Ident
      → Text
      → Ident
      → AuthState S
      → Result Error Text
      → Result Error (User × Text) × AuthState S
  with_nonce i signature wallet s (err e) = (err (wrap e unauthorized), s)
  with_nonce i signature wallet s (ok nonce) =
      with_session i nonce signature wallet s (store.get now (nonce_key nonce) s.sessions)

  -- `AuthService.VerifySIWE`
  unfoldable pub verify_siwe :
      Ident → Text → Text → Ident → AuthState S → Result Error (User × Text) × AuthState S
  unfolding extract_nonce sign_in
  verify_siwe i message signature wallet s = with_nonce i signature wallet s (extract_nonce message)
