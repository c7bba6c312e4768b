-- ===== src/Http/Laws/Admins.antt =====
-- The administrator's routes from the headers of a request: AuthMiddleware on the authentication
-- service, what it puts into the context, and requireAdmin.
use truth_market.Base.{
  ℕ, ◌≡◌, refl, ap, ◌∙◌, Bool, true, false, Option, none, some, List, [], ◌∷◌, ◌++◌, inl, inr, ◌⊎◌,
  Bool-cases, Result, ok, err, if◌then◌else◌,
}
use truth_market.Base.Maps.{lookup}
use truth_market.Base.Texts.{Text, split_once}
use truth_market.Domain.{Ident, User}
use truth_market.Errors.{Error}
use truth_market.Store.{Db, State}
use truth_market.Auth.{AuthState}
use truth_market.Auth.Genuine.{IsGenuine, validate_token-IsGenuine}
use truth_market.Auth.Keys.{ApiKey, validate_api_key}
use truth_market.Auth.Sessions.{SessionStore}
use truth_market.Auth.Tokens.{Codec, validate_token}
use truth_market.Http.{HttpReply, failed}
use truth_market.Http.Admin.{
  CreateMarketBody, require_admin, http_create_market, http_resolve_market,
  http_update_market_status, http_create_agent_user,
}
use truth_market.Http.Middleware.{
  Gate, passed, aborted, or_aborted, bearer_gate, auth_gate, validated, admin_route,
}
use truth_market.Http.Laws.Gates.{auth_gate-passed}

validated-ok : (r : Result Error User) (u : User) → validated r ≡ some u → r ≡ ok u
validated-ok (ok v) u h = cc
validated-ok (err e) u h = absurd cc

or_aborted-aborted : (o : Option User) (n : ℕ) → or_aborted o ≡ aborted n → n ≡ 401
or_aborted-aborted none n h = cc
or_aborted-aborted (some u) n h = absurd cc

if_aborted :
    (b : Bool) (o : Option User) (n : ℕ)
    → (if b then or_aborted o else aborted 401) ≡ aborted n
    → n ≡ 401
if_aborted true o n h = or_aborted-aborted o n h
if_aborted false o n h = cc

bearer_gate-aborted :
    (is_bearer : Text → Bool) (validate : Text → Option User) (o : Option (Text × Text)) (n : ℕ)
    → bearer_gate is_bearer validate o ≡ aborted n
    → n ≡ 401
bearer_gate-aborted is_bearer validate none n h = cc
bearer_gate-aborted is_bearer validate (some (scheme, token)) n h =
    if_aborted (is_bearer scheme) (validate token) n h

auth_gate-aborted :
    (is_bearer : Text → Bool) (validate_key validate : Text → Option User)
    (key authorization : Text) (n : ℕ)
    → auth_gate is_bearer validate_key validate key authorization ≡ aborted n
    → n ≡ 401
unfolding auth_gate
auth_gate-aborted is_bearer validate_key validate [] [] n h = cc
auth_gate-aborted is_bearer validate_key validate [] (x ∷ xs) n h =
    bearer_gate-aborted is_bearer validate (split_once b' ' (x ∷ xs)) n h
auth_gate-aborted is_bearer validate_key validate (k ∷ ks) authorization n h =
    or_aborted-aborted (validate_key (k ∷ ks)) n h

module _ (is_bearer : Text → Bool) (c : Codec) (secret : Text) (now : ℕ) where
  module _ (hash : Text → Text) (keys : List ApiKey) (users : List (Ident × User)) where
    -- The authentication middleware on the authentication service.
    unfoldable pub gate : Text → Text → Gate User
    gate =
        auth_gate is_bearer (λ k. validated (validate_api_key hash k keys users))
          (λ t. validated (validate_token c secret now t users))

    -- The headers are those of the user: an API key that is valid for it or, without a key, a bearer
    -- token that is genuine and names it.
    abbrev pub Authenticates : Text → Text → User → Type 0
    Authenticates key authorization u =
        (validate_api_key hash key keys users ≡ ok u)
        ⊎ ((key ≡ [])
            × ((scheme : Text) × (token : Text) × (authorization ≡ scheme ++ b' ' ∷ token)
                × (is_bearer scheme ≡ true)
                × ((name : Text) × IsGenuine c secret now token name
                    × (lookup (c.ident_of name) users ≡ some u))))

    -- The request is refused and changes nothing, or an administrator has sent it.
    abbrev pub OnlyByAdmin : {A S : Type 0} → Text → Text → HttpReply A × S → S → Type 0
    OnlyByAdmin key authorization r s =
        (r ≡ (failed 401, s))
        ⊎ ((r ≡ (failed 403, s))
            ⊎ ((u : User) × (u.is_admin ≡ true) × Authenticates key authorization u))

    gate-Authenticates :
        (key authorization : Text) (u : User)
        → gate key authorization ≡ passed u
        → Authenticates key authorization u
    unfolding gate
    gate-Authenticates key authorization u h = by_header (
        auth_gate-passed is_bearer (λ k. validated (validate_api_key hash k keys users))
          (λ t. validated (validate_token c secret now t users)) key authorization u h)
      where
        by_header :
            (validated (validate_api_key hash key keys users) ≡ some u)
              ⊎ ((key ≡ [])
                  × ((scheme : Text) × (token : Text) × (authorization ≡ scheme ++ b' ' ∷ token)
                      × (is_bearer scheme ≡ true)
                      × (validated (validate_token c secret now token users) ≡ some u)))
            → Authenticates key authorization u
        by_header (inl k) = inl (validated-ok _ u k)
        by_header (inr (k, (scheme, token, e, b, v))) = inr (
          k,
          (
            scheme,
            token,
            e,
            b,
            validate_token-IsGenuine c secret now token users u (validated-ok _ u v),
          ),
        )

    route-OnlyByAdmin :
        {A S : Type 0} (handler : User → Option Bool → S → HttpReply A × S)
        (key authorization : Text) (s : S)
        → ((u : User) → handler u (some false) s ≡ (failed 403, s))
        → OnlyByAdmin key authorization (admin_route (gate key authorization) handler s) s
    unfolding admin_route gate
    route-OnlyByAdmin {A} {S} handler key authorization s h = by_gate (gate key authorization) refl
      where
        by_gate :
            (g : Gate User)
            → gate key authorization ≡ g
            → OnlyByAdmin key authorization (admin_route g handler s) s
        by_gate (aborted n) e =
            inl (ap (λ m. (failed m, s)) (auth_gate-aborted is_bearer _ _ key authorization n e))
        by_gate (passed u) e = elim (Bool-cases u.is_admin) [
          | inl a ↦ inr (inr (u, a, gate-Authenticates key authorization u e))
          | inr a ↦ inr (inl (ap (λ b. handler u (some b) s) a ∙ h u))
        ]

    -- A request to CreateMarket, ResolveMarket, UpdateMarketStatus or CreateAgentUser of the
    -- administrator's routes, whatever its headers and its body are, is refused with 401 or 403 and
    -- changes nothing, or it comes from an administrator: its API key is valid for a user with
    -- is_admin or, without a key, it has a bearer token that is genuine and names such a user.
    pub admin_route-OnlyByAdmin :
        {S : Type 0} (undo : Db → Db → Db) (yes_label no_label i : Ident) (ids : ℕ → Ident)
        (store : SessionStore S) (created : Option CreateMarketBody) (winner wallet : Option Ident)
        (status : Option Text) (key authorization : Text) (s : State) (t : AuthState S)
        → OnlyByAdmin key authorization
            (admin_route
              (gate key authorization)
              (λ u admin.
                http_create_market undo yes_label no_label i ids admin (some (u.id)) created)
              s)
            s
          × OnlyByAdmin key authorization
              (admin_route
                (gate key authorization)
                (λ u admin. http_resolve_market undo admin i winner)
                s)
              s
          × OnlyByAdmin key authorization
              (admin_route
                (gate key authorization)
                (λ u admin. http_update_market_status admin i status)
                s)
              s
          × OnlyByAdmin key authorization
              (admin_route
                (gate key authorization)
                (λ u admin. http_create_agent_user store c secret now i admin wallet)
                t)
              t
    unfolding http_create_market http_resolve_market http_update_market_status
        http_create_agent_user require_admin
    admin_route-OnlyByAdmin undo yes_label no_label i ids store created winner wallet status key
          authorization s t =
        (
          route-OnlyByAdmin
              (λ u admin.
                http_create_market undo yes_label no_label i ids admin (some (u.id)) created)
              key authorization s (λ u. refl),
          route-OnlyByAdmin (λ u admin. http_resolve_market undo admin i winner) key authorization s
              (λ u. refl),
          route-OnlyByAdmin (λ u admin. http_update_market_status admin i status) key authorization
              s (λ u. refl),
          route-OnlyByAdmin (λ u admin. http_create_agent_user store c secret now i admin wallet)
              key authorization t (λ u. refl),
        )
