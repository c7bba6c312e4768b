-- ===== src/Http/Tests.antt =====
-- Requests to the gateway, and the theorems on them at inputs that exercise them.
use truth_market.Base.{
  ◌+◌, suc, ◌≡◌, refl, Bool, true, false, Option, none, some, List, [], ◌∷◌, ◌++◌, ◌==◌, length,
  ◌⊎◌, arith,
}
use truth_market.Base.Int.{ℤ, pos, negsuc, ◌-ℤ◌, ◌*ℤ◌, ◌≤ℤ◌}
use truth_market.Base.Texts.{Text, codes, split_once}
use truth_market.Domain.{Ident, User, buy, filled, multi, closed}
use truth_market.Errors.{app_error, fmt_wrap, not_found}
use truth_market.Auth.{AuthState}
use truth_market.Auth.Tokens.{Codec}
use truth_market.Auth.Keys.{ApiKey, get_by_hash, validate_api_key}
use truth_market.Auth.Users.{user_by_id}
use truth_market.Auth.Sessions.{SessionStore}
use truth_market.Trading.Tests.{program, user, start, rolled_back, no_div, draws}
use truth_market.Rpc.Calls
use truth_market.Rpc.{
  proto_order_side_to_domain, domain_order_side_to_proto, domain_order_status_to_proto,
  proto_order_status_to_domain, proto_market_type_to_domain, domain_market_type_to_proto,
  domain_market_status_to_proto, proto_market_status_to_domain, order_status_unspecified,
}
use truth_market.Rpc.Enums.{enums-roundtrip}
use truth_market.Rpc.Pages.{filter_of-bounds}
use truth_market.Rpc.Trading.{
  RpcListOrders, or_default, filter_of, or_invalid, service_request, rpc_place_order,
  domain_order_to_proto,
}
use truth_market.Http.{HttpReply, succeeded, failed, forward}
use truth_market.Http.Trading.{
  PlaceOrderBody, OrderResponse, TradeResponse, side_of_string, proto_order_side_to_string,
  order_response, proto_order_status_to_string, http_place_order,
}
use truth_market.Http.Admin.{
  require_admin, string_to_market_status, market_status_to_string, http_create_market,
  http_resolve_market, http_update_market_status, http_create_agent_user,
}
use truth_market.Http.Middleware.{admin_route, auth_gate, Counters, allow}
use truth_market.Http.Laws.{HttpAtomic, http_place_order-HttpAtomic}
use truth_market.Http.Laws.Errors.{AsHelpersSay, http_status-AsHelpersSay}
use truth_market.Http.Laws.Gates.{http_create_agent_user-fails, auth_gate-passed}
use truth_market.Http.Laws.Admins.{gate, OnlyByAdmin, admin_route-OnlyByAdmin}
use truth_market.Http.Laws.Cancelling.{SameHoldings, http_update_market_status-SameHoldings}
use truth_market.Http.Laws.Rates.{passes, allow-window}

-- What the tests run, with the program of the trading service.
handlers : Unit {0}
unfolding Calls.◌>>=◌ Calls.pure Calls.refuse Calls.call proto_order_side_to_domain
    domain_order_side_to_proto domain_order_status_to_proto or_invalid service_request
    rpc_place_order domain_order_to_proto forward side_of_string proto_order_side_to_string
    order_response proto_order_status_to_string http_place_order require_admin auth_gate allow
    passes split_once admin_route gate get_by_hash validate_api_key user_by_id
    http_update_market_status
handlers = tt

-- A decimal is written as one character here.
abbrev parse : Text → Option ℤ
parse [] = none
parse (x ∷ xs) = some (pos x)

abbrev print : ℤ → Text
print (pos n) = n ∷ []
print (negsuc n) = b'-' ∷ suc n ∷ []

abbrev body : PlaceOrderBody
body = record {
  market_id = 1;
  outcome_id = 7;
  side = codes "buy";
  price = 60_000_000 ∷ [];
  quantity = 8 ∷ [];
}

abbrev placed_status : HttpReply (OrderResponse × List TradeResponse) → Option Text
placed_status (failed code) = none
placed_status (succeeded code r) = some (r.0.status)

an_order_is_placed :
    (placed_status
        (http_place_order parse print rolled_back no_div (draws 200) (some 2) (some body) start).0
      ≡ some (codes "open"))
    × ((http_place_order parse print rolled_back no_div (draws 200) none (some body) start).0
        ≡ failed 401)
unfolding handlers program
an_order_is_placed = (refl, refl)

http_place_order-HttpAtomic_example :
    HttpAtomic
      (pos 0)
      start
      (http_place_order parse print rolled_back no_div (draws 200) (some 2) (some body) start)
http_place_order-HttpAtomic_example =
    http_place_order-HttpAtomic parse print rolled_back no_div (draws 200) (λ before after. refl)
      (some 2) (some body) start

http_status-AsHelpersSay_example : AsHelpersSay (fmt_wrap (app_error not_found))
http_status-AsHelpersSay_example = http_status-AsHelpersSay (fmt_wrap (app_error not_found))

-- A store that keeps nothing and a codec that writes nothing.
abbrev store : SessionStore (Unit {0})
store = record { get = λ now k s. none; set = λ now k v ttl s. s; delete = λ k s. (false, s) }

abbrev codec : Codec
codec = record {
  encode = λ x. x;
  decode = λ x. some x;
  mac = λ k x. k;
  marshal = λ c. c.sub;
  unmarshal = λ x. none;
  name_of = λ i. i ∷ [];
  ident_of = λ x. 0;
}

abbrev users : AuthState (Unit {0})
users = record { sessions = tt; users = (2, user 2) ∷ [] }

http_create_agent_user-fails_example :
    http_create_agent_user store codec [] 0 3 (some true) (some 9) users ≡ (failed 401, users)
http_create_agent_user-fails_example = http_create_agent_user-fails store codec [] 0 3 9 users refl

abbrev is_bearer : Text → Bool
is_bearer s = length s == 6

abbrev known_token : Text → Option User
known_token t = some (user 2)

abbrev no_key : Text → Option User
no_key k = none

auth_gate-passed_example :
    (no_key [] ≡ some (user 2))
    ⊎ ((◌≡◌ {A = Text} [] [])
        × ((scheme : Text) × (token : Text) × (codes "Bearer abc" ≡ scheme ++ b' ' ∷ token)
            × (is_bearer scheme ≡ true)
            × (known_token token ≡ some (user 2))))
unfolding handlers
auth_gate-passed_example =
    auth_gate-passed is_bearer no_key known_token [] (codes "Bearer abc") (user 2) refl

-- An administrator 4 and a key of each user.
abbrev rows : List (Ident × User)
rows = (2, user 2) ∷ (4, record (user 4) { is_admin = true }) ∷ []

abbrev key_of : Ident → ApiKey
key_of u = record {
  id = u + 20;
  user_id = u;
  key_hash = u ∷ [];
  key_prefix = [];
  is_active = true;
  expires_at = none;
}

abbrev api_keys : List ApiKey
api_keys = key_of 2 ∷ key_of 4 ∷ []

-- Only the administrator's key gets past its routes.
a_key_of_each :
    ((admin_route
        (gate is_bearer codec [] 0 (λ k. k) api_keys rows (2 ∷ []) [])
        (λ u admin. http_update_market_status admin 1 none)
        start).0
      ≡ failed 403)
    × ((admin_route
          (gate is_bearer codec [] 0 (λ k. k) api_keys rows (4 ∷ []) [])
          (λ u admin. http_update_market_status admin 1 none)
          start).0
        ≡ failed 400)
unfolding handlers
a_key_of_each = (refl, refl)

admin_route-OnlyByAdmin_example :
    OnlyByAdmin is_bearer codec [] 0
      (λ k. k)
      api_keys
      rows
      (4 ∷ [])
      []
      (admin_route
        (gate is_bearer codec [] 0 (λ k. k) api_keys rows (4 ∷ []) [])
        (λ u admin. http_create_market rolled_back 1 2 3 (λ n. n) admin (some (u.id)) none)
        start)
      start
    × OnlyByAdmin is_bearer codec [] 0
        (λ k. k)
        api_keys
        rows
        (4 ∷ [])
        []
        (admin_route
          (gate is_bearer codec [] 0 (λ k. k) api_keys rows (4 ∷ []) [])
          (λ u admin. http_resolve_market rolled_back admin 3 (some 7))
          start)
        start
    × OnlyByAdmin is_bearer codec [] 0
        (λ k. k)
        api_keys
        rows
        (4 ∷ [])
        []
        (admin_route
          (gate is_bearer codec [] 0 (λ k. k) api_keys rows (4 ∷ []) [])
          (λ u admin. http_update_market_status admin 3 (some (codes "open")))
          start)
        start
    × OnlyByAdmin is_bearer codec [] 0
        (λ k. k)
        api_keys
        rows
        (4 ∷ [])
        []
        (admin_route
          (gate is_bearer codec [] 0 (λ k. k) api_keys rows (4 ∷ []) [])
          (λ u admin. http_create_agent_user store codec [] 0 3 admin (some 9))
          users)
        users
admin_route-OnlyByAdmin_example =
    admin_route-OnlyByAdmin is_bearer codec [] 0 (λ k. k) api_keys rows rolled_back 1 2 3 (λ n. n)
      store none (some 7) (some 9) (some (codes "open")) (4 ∷ []) [] start users

http_update_market_status-SameHoldings_example :
    SameHoldings start (http_update_market_status (some true) 1 (some (codes "cancelled")) start).1
http_update_market_status-SameHoldings_example =
    http_update_market_status-SameHoldings (some true) 1 (some (codes "cancelled")) start

abbrev no_counters : Counters
no_counters k = none

-- The limit holds for a window from its first request: around the end of a window twice as many pass.
twice_the_limit : passes (codes "ip:1") 2 60 (0 ∷ 58 ∷ 59 ∷ 60 ∷ 61 ∷ 62 ∷ []) no_counters ≡ 4
unfolding handlers
twice_the_limit = refl

allow-window_example : passes (codes "ip:1") 2 60 (0 ∷ 58 ∷ 59 ∷ []) no_counters ≡ 2
allow-window_example =
    allow-window 0 (codes "ip:1") 2 60 (58 ∷ 59 ∷ []) no_counters refl
      (omega arith, (omega arith, tt))

enums-roundtrip_example :
    (proto_order_side_to_domain (domain_order_side_to_proto buy) ≡ buy)
    × (proto_order_status_to_domain (domain_order_status_to_proto filled) ≡ some filled)
    × (proto_market_type_to_domain (domain_market_type_to_proto multi) ≡ multi)
    × (proto_market_status_to_domain (domain_market_status_to_proto closed) ≡ closed)
    × (side_of_string (proto_order_side_to_string (domain_order_side_to_proto buy))
        ≡ some (domain_order_side_to_proto buy))
    × (string_to_market_status (market_status_to_string (domain_market_status_to_proto closed))
        ≡ domain_market_status_to_proto closed)
enums-roundtrip_example = enums-roundtrip buy filled multi closed

abbrev page_request : RpcListOrders
page_request = record {
  user_id = 2;
  market_id = 0;
  status = order_status_unspecified;
  page = pos 2_000_000_000;
  per_page = negsuc 5;
}

filter_of-bounds_example :
    (pos 1 ≤ℤ (filter_of page_request).limit)
    × (pos 0 ≤ℤ (filter_of page_request).offset)
    × ((filter_of page_request).offset
        ≡ (or_default (pos 1) page_request.page -ℤ pos 1)
          *ℤ or_default (pos 50) page_request.per_page)
filter_of-bounds_example = filter_of-bounds page_request (omega arith) (omega arith)
