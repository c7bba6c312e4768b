-- ===== src/Http/Middleware.antt =====
-- services/gateway/internal/middleware: auth.go and rate_limit.go, with infra/redis/rate_limiter.go. The
-- authentication service is an argument, a function from a key or a token to its user, `none` for any
-- error; so is strings.EqualFold against "Bearer".
use truth_market.Base.{
  ℕ, suc, ◌+◌, Bool, true, false, Option, none, some, [], ◌∷◌, ◌++◌, ◌==◌, leb, if◌then◌else◌,
  Result, ok, err,
}
use truth_market.Base.Texts.{Text, codes, same_text, split_once}
use truth_market.Domain.{Ident, User}
use truth_market.Errors.{Error}
use truth_market.Http.{HttpReply, failed}

-- What a request goes on with: a user in its context, or an end with a status.
pub data Gate (A : Type 0) : Type 0 where
  passed : A → Gate A
  aborted : ℕ → Gate A

abbrev pub or_aborted : Option User → Gate User
or_aborted none = aborted 401
or_aborted (some u) = passed u

abbrev pub bearer_gate : (Text → Bool) → (Text → Option User) → Option (Text × Text) → Gate User
bearer_gate is_bearer validate_token none = aborted 401
bearer_gate is_bearer validate_token (some (scheme, token)) =
    if is_bearer scheme then or_aborted (validate_token token) else aborted 401

-- AuthMiddleware, for the two headers; a header that is not there is empty.
unfoldable pub auth_gate :
    (Text → Bool) → (Text → Option User) → (Text → Option User) → Text → Text → Gate User
unfolding split_once
auth_gate is_bearer validate_key validate_token [] [] = aborted 401
auth_gate is_bearer validate_key validate_token [] (x ∷ xs) =
    bearer_gate is_bearer validate_token (split_once b' ' (x ∷ xs))
auth_gate is_bearer validate_key validate_token (k ∷ ks) authorization =
    or_aborted (validate_key (k ∷ ks))

-- What the middleware makes of the answer of the authentication service.
abbrev pub validated : Result Error User → Option User
validated (ok u) = some u
validated (err e) = none

-- The chain of the router's admin group: AuthMiddleware, which ends the request or puts the user and
-- its `is_admin` into the context, and then the handler with the two.
unfoldable pub admin_route :
    {A S : Type 0} → Gate User → (User → Option Bool → S → HttpReply A × S) → S → HttpReply A × S
admin_route (aborted status) handler s = (failed status, s)
admin_route (passed u) handler s = handler u (some (u.is_admin)) s

-- The counters of Redis with the time at which each goes: INCR starts a counter that is not there, or
-- that has gone, at 1 without an end.
pub record Counter : Type 0 where
  pub hits : ℕ
  pub ends : Option ℕ

abbrev pub Counters : Type 0
Counters = Text → Option Counter

abbrev has_gone : ℕ → Option ℕ → Bool
has_gone now none = false
has_gone now (some e) = leb e now

abbrev pub live_counter : ℕ → Option Counter → Option Counter
live_counter now none = none
live_counter now (some c) = if has_gone now c.ends then none else some c

abbrev pub incremented : Option Counter → Counter
incremented none = record { hits = 1; ends = none }
incremented (some c) = record c { hits = suc c.hits }

abbrev pub store_counter : Text → Counter → Counters → Counters
store_counter k c s j = if same_text j k then some c else s j

abbrev pub with_end : ℕ → Counter → Counter
with_end e c = if c.hits == 1 then record c { ends = some e } else c

abbrev pub limit_key : Text → Text
limit_key k = codes "ratelimit:" ++ k

-- `RateLimiter.Allow`: INCR, and EXPIRE after the first request of a window.
unfoldable pub allow : ℕ → Text → ℕ → ℕ → Counters → Bool × Counters
allow now key limit window s =
    let c = with_end (now + window) (incremented (live_counter now (s (limit_key key)))) in
    (leb c.hits limit, store_counter (limit_key key) c s)

-- rateLimitKey
unfoldable pub rate_limit_key : (Ident → Text) → Option User → Text → Text
rate_limit_key name_of none ip = codes "ip:" ++ ip
rate_limit_key name_of (some u) ip = codes "user:" ++ name_of u.id

abbrev gate_of : Bool × Counters → Gate (Unit {0}) × Counters
gate_of (true, s) = (passed tt, s)
gate_of (false, s) = (aborted 429, s)

-- RateLimitMiddleware, with a limiter or none; errors of Redis, which let the request pass, are left
-- out.
unfoldable pub rate_limit_gate :
    (Ident → Text) → Bool → ℕ → ℕ → ℕ → Option User → Text → Counters → Gate (Unit {0}) × Counters
unfolding allow rate_limit_key
rate_limit_gate name_of has_limiter now limit window user ip s =
    if has_limiter
    then gate_of (allow now (rate_limit_key name_of user ip) limit window s)
    else (passed tt, s)
