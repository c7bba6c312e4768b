-- ===== src/Http/Admin.antt =====
-- services/gateway/internal/handler/admin.go and the parts of market.go that it uses, on the market and
-- authentication servers. The end of a created market, which is the time of the request, is left out as
-- other timestamps are; so is RefreshRankings, which only forwards.
use truth_market.Base.{
  ℕ, ltb, Bool, false, ◌||◌, Option, none, some, List, [], map, ◌==◌, if◌then◌else◌, Result, ok,
  err,
}
use truth_market.Base.Int.{ℤ}
use truth_market.Base.Texts.{Text, codes, same_text}
use truth_market.Domain.{Ident, no_id, User}
use truth_market.Store.{Db}
use truth_market.Errors.{Error}
use truth_market.Rpc.Calls.{◌>>◌}
use truth_market.Rpc.{
  ProtoMarketStatus, market_draft, market_open, market_is_closed, market_resolved, market_cancelled,
  market_status_unspecified, ProtoMarketType, proto_binary, proto_multi, market_type_unspecified,
  to_grpc_error,
}
use truth_market.Rpc.Market.{
  ProtoMarket, ProtoOutcome, RpcCreateMarket, rpc_create_market, rpc_get_market,
  rpc_update_market_status, rpc_resolve_market,
}
use truth_market.Auth.{AuthState, verify_siwe}
use truth_market.Auth.Tokens.{Codec}
use truth_market.Auth.Sessions.{SessionStore}
use truth_market.Http.{HttpReply, succeeded, failed, Handler, fail, forward, handle_grpc_error}

unfoldable pub market_status_to_string : ProtoMarketStatus → Text
market_status_to_string market_draft = codes "draft"
market_status_to_string market_open = codes "open"
market_status_to_string market_is_closed = codes "closed"
market_status_to_string market_resolved = codes "resolved"
market_status_to_string market_cancelled = codes "cancelled"
market_status_to_string _ = codes "unknown"

-- The switch of stringToMarketStatus, on the lower case of the text.
unfoldable pub string_to_market_status : Text → ProtoMarketStatus
string_to_market_status s =
    if same_text s (codes "draft")
    then market_draft
    else if same_text s (codes "open")
    then market_open
    else if same_text s (codes "closed")
    then market_is_closed
    else if same_text s (codes "resolved")
    then market_resolved
    else if same_text s (codes "cancelled")
    then market_cancelled
    else market_status_unspecified

unfoldable pub market_type_to_string : ProtoMarketType → Text
market_type_to_string proto_binary = codes "binary"
market_type_to_string proto_multi = codes "multi"
market_type_to_string _ = codes "unknown"

-- The status map of UpdateMarketStatus.
unfoldable pub admin_status : Text → Option ProtoMarketStatus
admin_status s =
    if same_text s (codes "open")
    then some market_open
    else if same_text s (codes "closed")
    then some market_is_closed
    else if same_text s (codes "cancelled")
    then some market_cancelled
    else none

-- `MarketType_value[s]` of the generated code, unspecified where the map has no entry.
unfoldable pub market_type_value : Text → ProtoMarketType
market_type_value s =
    if same_text s (codes "MARKET_TYPE_BINARY")
    then proto_binary
    else if same_text s (codes "MARKET_TYPE_MULTI")
    then proto_multi
    else market_type_unspecified

pub record OutcomeResponse : Type 0 where
  pub id : Ident
  pub label : Ident
  pub index : ℤ
  pub price : Text
  pub is_winner : Bool

pub record MarketResponse : Type 0 where
  pub id : Ident
  pub title : Ident
  pub description : Ident
  pub category : Ident
  pub status : Text
  pub market_type : Text
  pub created_by : Ident
  pub volume : Text
  pub liquidity : Text
  pub outcomes : List OutcomeResponse

abbrev outcome_response : ProtoOutcome → OutcomeResponse
outcome_response o = record {
  id = o.id;
  label = o.label;
  index = o.index;
  price = codes "0.50";
  is_winner = o.is_winner;
}

unfoldable pub proto_market_to_response : ProtoMarket → MarketResponse
unfolding market_status_to_string market_type_to_string
proto_market_to_response m = record {
  id = m.id;
  title = m.title;
  description = m.description;
  category = m.category;
  status = market_status_to_string m.status;
  market_type = market_type_to_string m.market_type;
  created_by = m.created_by;
  volume = codes "0";
  liquidity = codes "0";
  outcomes = map outcome_response m.outcomes;
}

-- The `is_admin` of the context.
unfoldable pub require_admin : Option Bool → Bool
require_admin none = false
require_admin (some admin) = admin

-- The lengths of the texts are those of their bytes.
pub record CreateMarketBody : Type 0 where
  pub title : Ident
  pub title_length : ℕ
  pub description : Ident
  pub description_length : ℕ
  pub market_type : Text
  pub category : Ident
  pub category_length : ℕ
  pub outcome_labels : List Ident

abbrev too_long : CreateMarketBody → Bool
too_long b = ltb 256 b.title_length || ltb 5000 b.description_length || ltb 100 b.category_length

abbrev user_or_empty : Option Ident → Ident
user_or_empty none = no_id
user_or_empty (some u) = u

abbrev pub create_request : Option Ident → CreateMarketBody → RpcCreateMarket
create_request user b = record {
  title = b.title;
  description = b.description;
  market_type = market_type_value b.market_type;
  category = b.category;
  outcome_labels = b.outcome_labels;
  created_by = user_or_empty user;
}

abbrev pub only_admin : {A : Type 0} → Option Bool → Handler A → Handler A
only_admin admin h s = if require_admin admin then h s else (failed 403, s)

abbrev pub with_body : {A B : Type 0} → Option B → (B → Handler A) → Handler A
with_body none h = fail 400
with_body (some b) h = h b

unfoldable pub http_create_market :
    (Db → Db → Db)
    → Ident
    → Ident
    → Ident
    → (ℕ → Ident)
    → Option Bool
    → Option Ident
    → Option CreateMarketBody
    → Handler MarketResponse
unfolding require_admin proto_market_to_response market_type_value
http_create_market undo yes_label no_label i ids admin user body = only_admin admin (
    with_body body (λ b s.
      if too_long b
      then (failed 400, s)
      else forward 201 proto_market_to_response
          (rpc_create_market undo yes_label no_label i ids (create_request user b)) s))

unfoldable pub http_resolve_market :
    (Db → Db → Db) → Option Bool → Ident → Option Ident → Handler MarketResponse
unfolding require_admin proto_market_to_response
http_resolve_market undo admin i body = only_admin admin (
    with_body body (λ winner.
      forward 200 proto_market_to_response (rpc_resolve_market undo i winner >> rpc_get_market i)))

abbrev pub update_with : Ident → Option ProtoMarketStatus → Handler MarketResponse
update_with i none = fail 400
update_with i (some st) =
    forward 200 proto_market_to_response (rpc_update_market_status i st >> rpc_get_market i)

unfoldable pub http_update_market_status :
    Option Bool → Ident → Option Text → Handler MarketResponse
unfolding require_admin proto_market_to_response admin_status
http_update_market_status admin i body =
    only_admin admin (with_body body (λ status. update_with i (admin_status status)))

module _ {S : Type 0} (store : SessionStore S) (c : Codec) (secret : Text) (now : ℕ) where
  abbrev signed_reply :
      Result Error (User × Text) × AuthState S → HttpReply (User × Text) × AuthState S
  signed_reply (ok u, s) = (succeeded 201 u, s)
  signed_reply (err e, s) = (failed (handle_grpc_error (to_grpc_error e)), s)

  abbrev pub agent_user : Ident → Option Ident → AuthState S → HttpReply (User × Text) × AuthState S
  agent_user i none s = (failed 400, s)
  agent_user i (some wallet) s =
      if no_wallet wallet
      then (failed 400, s)
      else signed_reply (verify_siwe store c secret now i [] [] wallet s)
    where
      no_wallet : Ident → Bool
      no_wallet w = w == no_id

  -- `AdminHandler.CreateAgentUser`: a sign-in with an empty message and an empty signature.
  unfoldable pub http_create_agent_user :
      Ident → Option Bool → Option Ident → AuthState S → HttpReply (User × Text) × AuthState S
  unfolding require_admin verify_siwe handle_grpc_error to_grpc_error
  http_create_agent_user i admin body s =
      if require_admin admin then agent_user i body s else (failed 403, s)
