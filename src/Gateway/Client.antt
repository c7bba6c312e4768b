-- ===== src/Gateway/Client.antt =====
-- services/gateway/internal/ws: client.go, messages.go and eventbus_bridge.go. The JSON codec is an
-- argument, and so is the identifier of a text, `intern`, that stands for the text in the hub's maps.
-- Deadlines, pings and the network connection are left out: a connection is the list of frames that
-- it delivers before it ends.
pub mod Laws
pub mod Events
use truth_market.Base.{Option, none, some, List, [], ◌∷◌, ◌++◌, if◌then◌else◌}
use truth_market.Base.Texts.{Text, codes, same_text, split_once}
use truth_market.Domain.{Ident}
use truth_market.Gateway.Hub.{
  Message, HubCommand, HubEvent, unregistered, command, subscribe_market, unsubscribe_market,
  subscribe_user, broadcast_market, broadcast_user,
}

pub record WsMessage : Type 0 where
  pub kind : Text
  pub topic : Text
  pub payload : Message

abbrev pub subscribe_type : Text
subscribe_type = codes "subscribe"

abbrev pub unsubscribe_type : Text
unsubscribe_type = codes "unsubscribe"

abbrev pub event_type : Text
event_type = codes "event"

abbrev with_kind : Option WsMessage → Option WsMessage
with_kind none = none
with_kind (some m) = elim m.kind [ [] ↦ none | x ∷ xs ↦ some m ]

-- `json.Unmarshal` is an argument; `none` is an error.
unfoldable pub parse_ws_message : (Message → Option WsMessage) → Message → Option WsMessage
parse_ws_message unmarshal [] = none
parse_ws_message unmarshal (b ∷ bs) = with_kind (unmarshal (b ∷ bs))

unfoldable pub new_event_message : Text → Message → WsMessage
new_event_message topic payload = record { kind = event_type; topic = topic; payload = payload }

abbrev whole : Text → Option (Text × Text) → Text × Text
whole topic none = ([], topic)
whole topic (some parts) = parts

unfoldable pub split_topic : Text → Text × Text
unfolding split_once
split_topic topic = whole topic (split_once b':' topic)

unfoldable pub handle_subscribe : (Text → Ident) → Ident → Text → List HubCommand
unfolding split_topic
handle_subscribe intern c topic =
    let (prefix, i) = split_topic topic in
    if same_text prefix (codes "market")
    then subscribe_market c (intern i) ∷ []
    else if same_text prefix (codes "user")
    then subscribe_user c (intern i) ∷ []
    else []

unfoldable pub handle_unsubscribe : (Text → Ident) → Ident → Text → List HubCommand
unfolding split_topic
handle_unsubscribe intern c topic =
    let (prefix, i) = split_topic topic in
    if same_text prefix (codes "market") then unsubscribe_market c (intern i) ∷ [] else []

-- The commands that a message makes the client send to the hub.
unfoldable pub handle_message : (Text → Ident) → Ident → WsMessage → List HubCommand
unfolding handle_subscribe handle_unsubscribe
handle_message intern c msg =
    if same_text msg.kind subscribe_type
    then handle_subscribe intern c msg.topic
    else if same_text msg.kind unsubscribe_type
    then handle_unsubscribe intern c msg.topic
    else []

abbrev pub handle_parsed : (Text → Ident) → Ident → Option WsMessage → List HubCommand
handle_parsed intern c none = []
handle_parsed intern c (some msg) = handle_message intern c msg

abbrev pub commands : List HubCommand → List HubEvent → List HubEvent
commands [] rest = rest
commands (cmd ∷ cmds) rest = command cmd ∷ commands cmds rest

-- What ReadPump sends to the hub over a connection, the unregistration at its end included.
unfoldable pub read_pump :
    (Text → Ident) → (Message → Option WsMessage) → Ident → List Message → List HubEvent
unfolding handle_message parse_ws_message
read_pump intern unmarshal c [] = unregistered c ∷ []
read_pump intern unmarshal c (frame ∷ frames) =
    commands (handle_parsed intern c (parse_ws_message unmarshal frame))
      (read_pump intern unmarshal c frames)

abbrev unless_empty : Text → HubCommand → List HubCommand
unless_empty [] cmd = []
unless_empty (x ∷ xs) cmd = cmd ∷ []

-- The topic of the event messages of a market or of a user.
abbrev pub market_topic : Text → Text
market_topic i = codes "market:" ++ i

abbrev pub user_topic : Text → Text
user_topic i = codes "user:" ++ i

-- The two handlers that ConnectEventBus subscribes. `field name payload` is the string at a key of
-- the payload, empty if there is none.
unfoldable pub on_trade_executed :
    (Text → Ident) → (WsMessage → Message) → (Text → Message → Text) → Message → List HubCommand
unfolding new_event_message
on_trade_executed intern marshal field payload =
    let market = field (codes "market_id") payload in
    unless_empty market
      (broadcast_market (intern market) (marshal (new_event_message (market_topic market) payload)))

unfoldable pub on_order_placed :
    (Text → Ident) → (WsMessage → Message) → (Text → Message → Text) → Message → List HubCommand
unfolding new_event_message
on_order_placed intern marshal field payload =
    let user = field (codes "user_id") payload in
    unless_empty user
      (broadcast_user (intern user) (marshal (new_event_message (user_topic user) payload)))
