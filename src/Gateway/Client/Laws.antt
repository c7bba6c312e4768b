-- ===== src/Gateway/Client/Laws.antt =====
-- A connection's events as the hub takes them.
use truth_market.Base.{
  ◌≡◌, refl, ap, ◌∙◌, Bool, true, false, Option, none, some, List, [], ◌∷◌, if◌then◌else◌, All,
}
use truth_market.Base.Texts.{Text, codes, same_text}
use truth_market.Domain.{Ident}
use truth_market.Gateway.Hub.{
  Hub, Client, Message, HubCommand, HubEvent, registered, unregistered, command, subscribe_market,
  unsubscribe_market, subscribe_user, broadcast_market, broadcast_user, mem, process_command,
  hub_step, run_hub, with_objects,
}
use truth_market.Gateway.Hub.Sets.{mem-set_add}
use truth_market.Gateway.Hub.Delivery.{IsOpen}
use truth_market.Gateway.Hub.Safety.{
  IsHub, IsOrderly, AllOrderly, StepsTo, run_hub-IsHub, AfterStep,
}
use truth_market.Gateway.Client.{
  WsMessage, subscribe_type, unsubscribe_type, split_topic, handle_subscribe, handle_unsubscribe,
  handle_message, handle_parsed, commands, read_pump, parse_ws_message,
}

-- A subscription to the topic of a market or of a user.
abbrev pub subscription : Text → WsMessage
subscription topic = record { kind = subscribe_type; topic = topic; payload = [] }

-- The command is orderly while the client is registered.
abbrev Asks : Ident → HubCommand → Type 0
Asks c cmd = (h : Hub) → mem c h.clients ≡ true → IsOrderly (command cmd) h

if_Asks :
    (c : Ident) (b : Bool) (xs ys : List HubCommand)
    → All (Asks c) xs
    → All (Asks c) ys
    → All (Asks c) (if b then xs else ys)
if_Asks c true xs ys p q = p
if_Asks c false xs ys p q = q

handle_subscribe-Asks :
    (intern : Text → Ident) (c : Ident) (topic : Text)
    → All (Asks c) (handle_subscribe intern c topic)
unfolding handle_subscribe
handle_subscribe-Asks intern c topic =
    let (prefix, i) = split_topic topic in
    if_Asks c (same_text prefix (codes "market")) (subscribe_market c (intern i) ∷ [])
      (if same_text prefix (codes "user") then subscribe_user c (intern i) ∷ [] else [])
      ((λ h e. e), tt)
      (if_Asks c (same_text prefix (codes "user")) (subscribe_user c (intern i) ∷ []) []
        ((λ h e. e), tt) tt)

handle_unsubscribe-Asks :
    (intern : Text → Ident) (c : Ident) (topic : Text)
    → All (Asks c) (handle_unsubscribe intern c topic)
unfolding handle_unsubscribe
handle_unsubscribe-Asks intern c topic =
    let (prefix, i) = split_topic topic in
    if_Asks c (same_text prefix (codes "market")) (unsubscribe_market c (intern i) ∷ []) []
      ((λ h e. tt), tt) tt

handle_message-Asks :
    (intern : Text → Ident) (c : Ident) (msg : WsMessage)
    → All (Asks c) (handle_message intern c msg)
unfolding handle_message
handle_message-Asks intern c msg =
    if_Asks c (same_text msg.kind subscribe_type) (handle_subscribe intern c msg.topic)
      (if same_text msg.kind unsubscribe_type then handle_unsubscribe intern c msg.topic else [])
      (handle_subscribe-Asks intern c msg.topic)
      (if_Asks c (same_text msg.kind unsubscribe_type) (handle_unsubscribe intern c msg.topic) []
        (handle_unsubscribe-Asks intern c msg.topic) tt)

handle_parsed-Asks :
    (intern : Text → Ident) (c : Ident) (m : Option WsMessage)
    → All (Asks c) (handle_parsed intern c m)
handle_parsed-Asks intern c none = tt
handle_parsed-Asks intern c (some msg) = handle_message-Asks intern c msg

AfterStep-map :
    (P Q : Hub → Type 0) (o : Option Hub) → ((h : Hub) → P h → Q h) → AfterStep P o → AfterStep Q o
AfterStep-map P Q none f p = tt
AfterStep-map P Q (some h) f p = f h p

AfterStep-unit : (o : Option Hub) → AfterStep (λ h. Unit) o
AfterStep-unit none = tt
AfterStep-unit (some h) = tt

with_objects-clients :
    (h : Hub) (o : Option (Ident → Client))
    → AfterStep (λ h'. h'.clients ≡ h.clients) (with_objects h o)
with_objects-clients h none = tt
with_objects-clients h (some objects) = refl

if_same_clients :
    (h g : Hub) (b : Bool)
    → g.clients ≡ h.clients
    → AfterStep (λ h'. h'.clients ≡ h.clients) (if b then some g else some h)
if_same_clients h g true e = e
if_same_clients h g false e = refl

process_command-clients :
    (cmd : HubCommand) (h : Hub) → AfterStep (λ h'. h'.clients ≡ h.clients) (process_command cmd h)
unfolding process_command
process_command-clients (subscribe_market c m) h = refl
process_command-clients (unsubscribe_market c m) h = refl
process_command-clients (subscribe_user c u) h = if_same_clients h _ _ refl
process_command-clients (broadcast_market m msg) h = with_objects-clients h _
process_command-clients (broadcast_user u msg) h = with_objects-clients h _

commands-AllOrderly :
    (c : Ident) (cmds : List HubCommand) (rest : List HubEvent) (h : Hub)
    → All (Asks c) cmds
    → mem c h.clients ≡ true
    → ((g : Hub) → mem c g.clients ≡ true → AllOrderly rest g)
    → AllOrderly (commands cmds rest) h
unfolding AllOrderly
commands-AllOrderly c [] rest h a e f = f h e
commands-AllOrderly c (cmd ∷ cmds) rest h a e f = (
  a.0 h e,
  AfterStep-map (λ g. g.clients ≡ h.clients) (AllOrderly (commands cmds rest))
      (process_command cmd h)
      (λ g same. commands-AllOrderly c cmds rest g a.1 (ap (mem c) same ∙ e) f)
      (process_command-clients cmd h),
)

read_pump-AllOrderly :
    (intern : Text → Ident) (unmarshal : Message → Option WsMessage) (c : Ident)
    (frames : List Message) (h : Hub)
    → mem c h.clients ≡ true
    → AllOrderly (read_pump intern unmarshal c frames) h
unfolding read_pump AllOrderly
read_pump-AllOrderly intern unmarshal c [] h e = (tt, AfterStep-unit (hub_step (unregistered c) h))
read_pump-AllOrderly intern unmarshal c (frame ∷ frames) h e =
    commands-AllOrderly c (handle_parsed intern c (parse_ws_message unmarshal frame)) _ h
      (handle_parsed-Asks intern c (parse_ws_message unmarshal frame)) e
      (read_pump-AllOrderly intern unmarshal c frames)

-- The events of a connection, in the order in which they are sent, never make the hub panic, whatever
-- the frames are: a client with an open channel is registered, its messages are handled, and it is
-- unregistered at the end, and the hub meets its invariant again.
pub connection-StepsTo :
    (intern : Text → Ident) (unmarshal : Message → Option WsMessage) (c : Ident)
    (frames : List Message) (h : Hub)
    → IsHub h
    → IsOpen h.objects c
    → StepsTo (run_hub (registered c ∷ read_pump intern unmarshal c frames) h)
unfolding AllOrderly
connection-StepsTo intern unmarshal c frames h v o =
    run_hub-IsHub (registered c ∷ read_pump intern unmarshal c frames) h v
      (o, read_pump-AllOrderly intern unmarshal c frames _ (mem-set_add c h.clients))
