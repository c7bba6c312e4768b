-- ===== src/Auth/SignIn.antt =====
-- VerifySIWE: what a sign-in does to the sessions and to the users.
use truth_market.Base.{
  ℕ, ◌+◌, ◌<◌, ◌≡◌, refl, ap, ◌∙◌, Bool, true, false, Option, none, some, List, ◌∷◌, if◌then◌else◌,
  Result, ok, err, Bool-cases, inl, inr, All,
}
use truth_market.Base.Texts.{Text, codes}
use truth_market.Base.Maps.{lookup, insert}
use truth_market.Domain.{Ident, User}
use truth_market.Errors.{Error, not_found, is_code, code_from_error}
use truth_market.Auth.Sessions.{SessionStore, IsSessionStore}
use truth_market.Auth.Tokens.{Codec, generate_jwt}
use truth_market.Auth.{
  AuthState, nonce_key, bad_signature, generate_nonce, sign_in, verify_siwe, with_nonce,
  with_session, signed_in, user_or_new, created,
}
use truth_market.Auth.Users.{found, user_by_wallet, new_user, create_row, first_wallet}
use truth_market.Auth.Nonces.{IsPlainLine, IsSolid, message_with, extract_nonce-message_with}

-- The user that signs in with a wallet: the one that has it, or a new one.
abbrev or_new : Ident → Ident → Option User → User
or_new i wallet none = new_user i wallet
or_new i wallet (some u) = u

abbrev pub wallet_user : Ident → Ident → List (Ident × User) → User
wallet_user i wallet users = or_new i wallet (first_wallet wallet users)

-- The users after the sign-in.
abbrev with_new : Ident → Ident → List (Ident × User) → Option User → List (Ident × User)
with_new i wallet users none = insert i (new_user i wallet) users
with_new i wallet users (some u) = users

abbrev pub users_after : Ident → Ident → List (Ident × User) → List (Ident × User)
users_after i wallet users = with_new i wallet users (first_wallet wallet users)

module _ {S : Type 0} (store : SessionStore S) (c : Codec) (secret : Text) where
  sessions_kept :
      (now : ℕ) (r : Result Error User × AuthState S)
      → (signed_in store c secret now r).1.sessions ≡ r.1.sessions
  sessions_kept now (ok u, s) = refl
  sessions_kept now (err e, s) = refl

  created-sessions :
      (now : ℕ) (u : User) (s : AuthState S) (r : Result Error (Unit {0}) × List (Ident × User))
      → (created store c secret now u s r).1.sessions ≡ s.sessions
  created-sessions now u s (ok t, users) = refl
  created-sessions now u s (err e, users) = refl

  if_sessions :
      (b : Bool) (x y : Result Error User × AuthState S) (t : S)
      → x.1.sessions ≡ t
      → y.1.sessions ≡ t
      → (if b then x else y).1.sessions ≡ t
  if_sessions true x y t p q = p
  if_sessions false x y t p q = q

  user_or_new-sessions :
      (now : ℕ) (i wallet : Ident) (s : AuthState S) (r : Result Error User)
      → (user_or_new store c secret now i wallet s r).1.sessions ≡ s.sessions
  user_or_new-sessions now i wallet s (ok u) = refl
  user_or_new-sessions now i wallet s (err e) =
      if_sessions (is_code not_found e) _ _ s.sessions
        (created-sessions now (new_user i wallet) s _) refl

  pub sign_in-sessions :
      (now : ℕ) (i : Ident) (signature : Text) (wallet : Ident) (s : AuthState S)
      → (sign_in store c secret now i signature wallet s).1.sessions ≡ s.sessions
  unfolding sign_in
  sign_in-sessions now i signature wallet s = elim (Bool-cases (bad_signature signature)) [
    | inl e ↦ rw e refl
    | inr e ↦ rw e (
        sessions_kept now
          (user_or_new store c secret now i wallet s (user_by_wallet wallet s.users))
        ∙ user_or_new-sessions now i wallet s (user_by_wallet wallet s.users))
  ]

  pub sign_in-user :
      (now : ℕ) (i : Ident) (signature : Text) (wallet : Ident) (s : AuthState S)
      → bad_signature signature ≡ false
      → lookup i s.users ≡ none
      → sign_in store c secret now i signature wallet s ≡ (
        ok (
          wallet_user i wallet s.users,
          generate_jwt c secret now (wallet_user i wallet s.users).id,
        ),
        record s { users = users_after i wallet s.users },
      )
  unfolding sign_in user_by_wallet is_code code_from_error
  sign_in-user now i signature wallet s g free = rw g (by_wallet (first_wallet wallet s.users))
    where
      by_wallet :
          (o : Option User)
          → signed_in store c secret now (user_or_new store c secret now i wallet s (found o)) ≡ (
            ok (or_new i wallet o, generate_jwt c secret now (or_new i wallet o).id),
            record s { users = with_new i wallet s.users o },
          )
      by_wallet none =
          ap
            (λ o. signed_in store c secret now (
              created store c secret now (new_user i wallet) s
                (create_row (new_user i wallet) o s.users)))
            free
      by_wallet (some u) = refl

  -- A user who asks for a nonce and sends it back in a message within five minutes, with a signature
  -- that is not refused, is signed in: the user is the one of the wallet or, if there is none, a new
  -- one with the initial balance under the identifier that was drawn; the token is signed for that
  -- user; the users change in nothing else, and the sessions are as the delete of the nonce leaves them,
  -- whatever it answers.
  pub verify_siwe-generate_nonce :
      (now later : ℕ) (i : Ident) (ls : List Text) (x : ℕ) (xs rest signature : Text)
      (wallet : Ident) (s : AuthState S)
      → IsSessionStore store
      → All IsPlainLine ls
      → IsSolid (x ∷ xs)
      → later < now + 300
      → bad_signature signature ≡ false
      → lookup i s.users ≡ none
      → verify_siwe store c secret later i
          (message_with ls (x ∷ xs) rest)
          signature
          wallet
          (generate_nonce store c secret now (x ∷ xs) s).1
        ≡ (
          ok (
            wallet_user i wallet s.users,
            generate_jwt c secret later (wallet_user i wallet s.users).id,
          ),
          record {
            sessions =
                (store.delete
                  (nonce_key (x ∷ xs))
                  (generate_nonce store c secret now (x ∷ xs) s).1.sessions).1;
            users = users_after i wallet s.users;
          },
        )
  unfolding verify_siwe generate_nonce
  verify_siwe-generate_nonce now later i ls x xs rest signature wallet s good plain solid h g free =
      ap (λ m. with_nonce store c secret later i signature wallet given m)
        (extract_nonce-message_with ls x xs rest plain solid)
      ∙ (ap (λ o. with_session store c secret later i (x ∷ xs) signature wallet given o)
            (good.get_set now later 300 (nonce_key (x ∷ xs)) (codes "pending") s.sessions h)
          ∙ sign_in-user later i signature wallet
              (record given { sessions = (store.delete (nonce_key (x ∷ xs)) given.sessions).1 }) g
              free)
    where
      given : AuthState S
      given = record s {
        sessions = store.set now (nonce_key (x ∷ xs)) (codes "pending") 300 s.sessions;
      }
