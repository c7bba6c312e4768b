-- ===== src/Gateway/Tests.antt =====
-- Runs of the gateway, and its theorems at inputs that exercise it.
use truth_market.Base.{
  if◌then◌else◌, take, drop, ◌+◌, ◌≡◌, refl, true, Option, none, some, List, [], ◌∷◌,
}
use truth_market.Base.Texts.{Text, codes, same_text}
use truth_market.Domain.{Ident}
use truth_market.Gateway.Hub.{
  Hub, Client, Message, HubEvent, registered, unregistered, command, subscribe_market,
  broadcast_market, push, run_hub, hub_step, process_command, deliver,
}
use truth_market.Gateway.Hub.Safety.{IsHub, AllOrderly, StepsTo, run_hub-IsHub}
use truth_market.Gateway.Hub.Races.{late_subscription_panics}
use truth_market.Gateway.Client.{
  WsMessage, handle_message, on_trade_executed, on_order_placed, read_pump, parse_ws_message,
}
use truth_market.Gateway.Client.Laws.{subscription, connection-StepsTo}

-- What the tests run.
program : Unit {0}
unfolding run_hub hub_step process_command deliver push AllOrderly handle_message on_trade_executed
    on_order_placed read_pump parse_ws_message
program = tt

-- Each client is authenticated as the user whose number is ten more.
abbrev client : Ident → Client
client i = record { user_id = i + 10; capacity = 2; buffer = []; is_open = true }

-- Client 1 is registered.
abbrev hub : Hub
hub = record {
  clients = 1 ∷ [];
  market_subs = [];
  user_subs = [];
  client_count = 1;
  objects = client;
}

hub-IsHub : IsHub hub
hub-IsHub = record {
  clients = ((refl, tt), (refl, tt));
  market_subs = tt;
  user_subs = tt;
  counted = refl;
}

abbrev hello : Message
hello = codes "hello"

-- Client 2 comes and subscribes, both hear a message, and client 2 goes.
abbrev events : List HubEvent
events =
    registered 2
    ∷ command (subscribe_market 2 7)
    ∷ command (subscribe_market 1 7)
    ∷ command (broadcast_market 7 hello)
    ∷ unregistered 2
    ∷ command (broadcast_market 7 hello)
    ∷ []

abbrev buffer_of : Ident → Option Hub → List Message
buffer_of c none = []
buffer_of c (some h) = (h.objects c).buffer

events_are_heard :
    (buffer_of 1 (run_hub events hub) ≡ hello ∷ hello ∷ [])
    × (buffer_of 2 (run_hub events hub) ≡ hello ∷ [])
unfolding program
events_are_heard = (refl, refl)

events-AllOrderly : AllOrderly events hub
unfolding program
events-AllOrderly = (refl, (refl, (refl, (tt, (tt, (tt, tt))))))

run_hub-IsHub_example : StepsTo (run_hub events hub)
run_hub-IsHub_example = run_hub-IsHub events hub hub-IsHub events-AllOrderly

late_subscription_panics_example :
    run_hub
      (unregistered 1 ∷ command (subscribe_market 1 7) ∷ command (broadcast_market 7 hello) ∷ [])
      hub
    ≡ none
late_subscription_panics_example = late_subscription_panics 1 7 hello hub hub-IsHub refl

-- A text's number, and a codec that keeps the type and the topic apart by a byte.
abbrev number_of : Text → Ident
number_of [] = 0
number_of (x ∷ xs) = x + number_of xs

abbrev marshal : WsMessage → Message
marshal m = m.topic

-- The payloads of a trade on the market m1 and of an order of the user u2.
abbrev trade_payload : Message
trade_payload = codes "m1;u7;filled"

abbrev order_payload : Message
order_payload = codes "m3;u2;open"

-- The string at a key of a payload: the first two characters are the market, two others the user.
abbrev field : Text → Message → Text
field name body =
    if same_text name (codes "market_id")
    then take 2 body
    else if same_text name (codes "user_id")
    then take 2 (drop 3 body)
    else []

abbrev unmarshal : Message → Option WsMessage
unmarshal m = some (subscription m)

connection-StepsTo_example :
    StepsTo (run_hub (registered 2 ∷ read_pump number_of unmarshal 2 (codes "market:m" ∷ [])) hub)
connection-StepsTo_example =
    connection-StepsTo number_of unmarshal 2 (codes "market:m" ∷ []) hub hub-IsHub refl
