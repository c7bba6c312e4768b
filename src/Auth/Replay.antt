-- ===== src/Auth/Replay.antt =====
-- VerifySIWE on a nonce that was used before: after a delete that succeeded, and after one that failed.
use truth_market.Base.{
  ℕ, ◌≡◌, ap, ◌∙◌, true, false, Option, none, some, List, [], ◌∷◌, Result, ok, err, All,
}
use truth_market.Base.Texts.{Text, codes, same_text}
use truth_market.Base.Maps.{lookup}
use truth_market.Domain.{Ident, User}
use truth_market.Errors.{Error, app_error, unauthorized}
use truth_market.Auth.Sessions.{SessionStore, IsSessionStore}
use truth_market.Auth.Tokens.{Codec, generate_jwt}
use truth_market.Auth.{
  AuthState, nonce_key, bad_signature, generate_nonce, verify_siwe, with_nonce, with_session,
}
use truth_market.Auth.Messages.{extract_nonce}
use truth_market.Auth.SignIn.{sign_in-sessions, sign_in-user, wallet_user, users_after}

-- The service's calls that change its state, with their times and what they draw at random, and the
-- changes that other services make to the users.
pub data AuthCall : Type 0 where
  asks : ℕ → Text → AuthCall
  verifies : ℕ → Ident → Text → Text → Ident → AuthCall
  others : List (Ident × User) → AuthCall

-- A call that does not draw the nonce again.
abbrev pub DrawsAnother : Text → AuthCall → Type 0
DrawsAnother nonce (asks now drawn) = same_text (nonce_key nonce) (nonce_key drawn) ≡ false
DrawsAnother nonce (verifies now i message signature wallet) = Unit
DrawsAnother nonce (others users) = Unit

module _ {S : Type 0} (store : SessionStore S) (c : Codec) (secret : Text) where
  unfoldable pub make_call : AuthCall → AuthState S → AuthState S
  unfolding generate_nonce verify_siwe
  make_call (asks now nonce) s = (generate_nonce store c secret now nonce s).1
  make_call (verifies now i message signature wallet) s =
      (verify_siwe store c secret now i message signature wallet s).1
  make_call (others users) s = record s { users = users }

  unfoldable pub make_calls : List AuthCall → AuthState S → AuthState S
  unfolding make_call
  make_calls [] s = s
  make_calls (call ∷ calls) s = make_calls calls (make_call call s)

  -- The store has no value for the nonce, at any time.
  abbrev IsSpent : Text → S → Type 0
  IsSpent nonce sessions = (later : ℕ) → store.get later (nonce_key nonce) sessions ≡ none

  with_session-IsSpent :
      (now : ℕ) (i : Ident) (nonce n signature : Text) (wallet : Ident) (s : AuthState S)
      (o : Option Text)
      → IsSessionStore store
      → IsSpent nonce s.sessions
      → IsSpent nonce (with_session store c secret now i n signature wallet s o).1.sessions
  with_session-IsSpent now i nonce n signature wallet s none good gone = gone
  with_session-IsSpent now i nonce n signature wallet s (some v) good gone = λ later.
      ap (store.get later (nonce_key nonce))
        (sign_in-sessions store c secret now i signature wallet _)
      ∙ good.get_delete_none later (nonce_key n) (nonce_key nonce) s.sessions (gone later)

  with_nonce-IsSpent :
      (now : ℕ) (i : Ident) (nonce signature : Text) (wallet : Ident) (s : AuthState S)
      (r : Result Error Text)
      → IsSessionStore store
      → IsSpent nonce s.sessions
      → IsSpent nonce (with_nonce store c secret now i signature wallet s r).1.sessions
  with_nonce-IsSpent now i nonce signature wallet s (err e) good gone = gone
  with_nonce-IsSpent now i nonce signature wallet s (ok n) good gone =
      with_session-IsSpent now i nonce n signature wallet s (store.get now (nonce_key n) s.sessions)
        good gone

  make_call-IsSpent :
      (nonce : Text) (call : AuthCall) (s : AuthState S)
      → IsSessionStore store
      → DrawsAnother nonce call
      → IsSpent nonce s.sessions
      → IsSpent nonce (make_call call s).sessions
  unfolding make_call
  make_call-IsSpent nonce (asks now drawn) s good h gone = λ later.
      good.get_set_other now later 300 (nonce_key drawn) (nonce_key nonce) (codes "pending")
        s.sessions h
      ∙ gone later
  make_call-IsSpent nonce (verifies now i message signature wallet) s good h gone =
      with_nonce-IsSpent now i nonce signature wallet s (extract_nonce message) good gone
  make_call-IsSpent nonce (others users) s good h gone = gone

  make_calls-IsSpent :
      (nonce : Text) (calls : List AuthCall) (s : AuthState S)
      → IsSessionStore store
      → All (DrawsAnother nonce) calls
      → IsSpent nonce s.sessions
      → IsSpent nonce (make_calls calls s).sessions
  unfolding make_calls
  make_calls-IsSpent nonce [] s good h gone = gone
  make_calls-IsSpent nonce (call ∷ calls) s good h gone =
      make_calls-IsSpent nonce calls (make_call call s) good h.1
        (make_call-IsSpent nonce call s good h.0 gone)

  -- The sessions after a call that has found its nonce.
  found-sessions :
      (now : ℕ) (i : Ident) (message signature nonce v : Text) (wallet : Ident) (s : AuthState S)
      → extract_nonce message ≡ ok nonce
      → store.get now (nonce_key nonce) s.sessions ≡ some v
      → (verify_siwe store c secret now i message signature wallet s).1.sessions
        ≡ (store.delete (nonce_key nonce) s.sessions).1
  unfolding verify_siwe
  found-sessions now i message signature nonce v wallet s e g =
      ap (λ m. (with_nonce store c secret now i signature wallet s m).1.sessions) e
      ∙ (ap (λ o. (with_session store c secret now i nonce signature wallet s o).1.sessions) g
          ∙ sign_in-sessions store c secret now i signature wallet
              (record s { sessions = (store.delete (nonce_key nonce) s.sessions).1 }))

  refused_when_spent :
      (now : ℕ) (i : Ident) (message signature nonce : Text) (wallet : Ident) (s : AuthState S)
      → extract_nonce message ≡ ok nonce
      → IsSpent nonce s.sessions
      → verify_siwe store c secret now i message signature wallet s
        ≡ (err (app_error unauthorized), s)
  unfolding verify_siwe
  refused_when_spent now i message signature nonce wallet s e gone =
      ap (λ m. with_nonce store c secret now i signature wallet s m) e
      ∙ ap (λ o. with_session store c secret now i nonce signature wallet s o) (gone now)

  -- A nonce is good for one call if its delete succeeds: once VerifySIWE has found the nonce of a
  -- message and deleted it, and whatever calls the service has taken since (any that ask for nonces,
  -- as long as none draws this nonce again, any that verify messages, at any times, and any changes that
  -- others make to the users), a call with a
  -- message of the same nonce is refused as unauthorized and changes nothing; so it is whether the
  -- first call went on to sign somebody in or refused the signature.
  pub verify_siwe-once :
      (now later : ℕ) (i i' : Ident) (message message' signature signature' nonce v : Text)
      (wallet wallet' : Ident) (calls : List AuthCall) (s : AuthState S)
      → IsSessionStore store
      → extract_nonce message ≡ ok nonce
      → extract_nonce message' ≡ ok nonce
      → store.get now (nonce_key nonce) s.sessions ≡ some v
      → (store.delete (nonce_key nonce) s.sessions).0 ≡ true
      → All (DrawsAnother nonce) calls
      → verify_siwe store c secret later i' message' signature' wallet'
          (make_calls calls (verify_siwe store c secret now i message signature wallet s).1)
        ≡ (
          err (app_error unauthorized),
          make_calls calls (verify_siwe store c secret now i message signature wallet s).1,
        )
  verify_siwe-once now later i i' message message' signature signature' nonce v wallet wallet' calls
        s good e e' g deleted drawn =
      refused_when_spent later i' message' signature' nonce wallet' _ e' (
        make_calls-IsSpent nonce calls _ good drawn λ at.
          ap (store.get at (nonce_key nonce))
            (found-sessions now i message signature nonce v wallet s e g)
          ∙ good.get_delete at (nonce_key nonce) s.sessions deleted)

  signs_in :
      (now : ℕ) (i : Ident) (message signature nonce v : Text) (wallet : Ident) (s : AuthState S)
      → extract_nonce message ≡ ok nonce
      → store.get now (nonce_key nonce) s.sessions ≡ some v
      → bad_signature signature ≡ false
      → lookup i s.users ≡ none
      → verify_siwe store c secret now i message signature wallet s ≡ (
        ok (
          wallet_user i wallet s.users,
          generate_jwt c secret now (wallet_user i wallet s.users).id,
        ),
        record {
          sessions = (store.delete (nonce_key nonce) s.sessions).1;
          users = users_after i wallet s.users;
        },
      )
  unfolding verify_siwe
  signs_in now i message signature nonce v wallet s e g accepted free =
      ap (λ m. with_nonce store c secret now i signature wallet s m) e
      ∙ (ap (λ o. with_session store c secret now i nonce signature wallet s o) g
          ∙ sign_in-user store c secret now i signature wallet
              (record s { sessions = (store.delete (nonce_key nonce) s.sessions).1 }) accepted free)

  -- When the delete of the nonce fails and leaves the sessions as they were, the same message and
  -- signature sign in again, as long as the nonce has not expired, since the call goes on without
  -- looking at the failure.
  pub verify_siwe-replayed :
      (now later : ℕ) (i i' : Ident) (message signature nonce v w : Text) (wallet : Ident)
      (s : AuthState S)
      → extract_nonce message ≡ ok nonce
      → store.get now (nonce_key nonce) s.sessions ≡ some v
      → store.get later (nonce_key nonce) s.sessions ≡ some w
      → store.delete (nonce_key nonce) s.sessions ≡ (false, s.sessions)
      → bad_signature signature ≡ false
      → lookup i s.users ≡ none
      → lookup i' (users_after i wallet s.users) ≡ none
      → (verify_siwe store c secret later i' message signature wallet
          (verify_siwe store c secret now i message signature wallet s).1).0
        ≡ ok (
          wallet_user i' wallet (users_after i wallet s.users),
          generate_jwt c secret later (wallet_user i' wallet (users_after i wallet s.users)).id,
        )
  verify_siwe-replayed now later i i' message signature nonce v w wallet s e g g' failed accepted
        free free' =
      ap (λ r. (verify_siwe store c secret later i' message signature wallet r.1).0)
        (signs_in now i message signature nonce v wallet s e g accepted free)
      ∙ ap (λ r. r.0)
          (signs_in later i' message signature nonce w wallet
            (record {
              sessions = (store.delete (nonce_key nonce) s.sessions).1;
              users = users_after i wallet s.users;
            })
            e (ap (λ d. store.get later (nonce_key nonce) d.1) failed ∙ g') accepted free')
