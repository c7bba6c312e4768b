-- ===== src/Gateway/Hub.antt =====
-- services/gateway/internal/ws/hub.go. The Run goroutine takes one event at a time from its channels,
-- in an order that Go does not fix: a run is a list of events. A client is a pointer: an identifier,
-- with a table of the objects. A map of sets is an association list of lists, iterated in its order.
-- `none` is a panic, as a send on a closed channel.
pub mod Sets
pub mod Delivery
pub mod Safety
pub mod Races
use truth_market.Base.{
  ℕ, Bool, true, false, ◌||◌, Option, none, some, List, [], ◌∷◌, ◌++◌, ◌==◌, ltb, if◌then◌else◌,
  length,
}
use truth_market.Base.Maps.{lookup, insert, update}
use truth_market.Domain.{Ident, no_id}

-- The bytes of a message.
abbrev pub Message : Type 0
Message = List ℕ

-- A client's `Send` channel and the user that it is authenticated as.
pub record Client : Type 0 where
  pub user_id : Ident
  pub capacity : ℕ
  pub buffer : List Message
  pub is_open : Bool

pub record Hub : Type 0 where
  pub clients : List Ident
  pub market_subs : List (Ident × List Ident)
  pub user_subs : List (Ident × List Ident)
  pub client_count : ℕ
  pub objects : Ident → Client

unfoldable pub new_hub : (Ident → Client) → Hub
new_hub objects = record {
  clients = [];
  market_subs = [];
  user_subs = [];
  client_count = 0;
  objects = objects;
}

pub data HubCommand : Type 0 where
  subscribe_market : Ident → Ident → HubCommand
  unsubscribe_market : Ident → Ident → HubCommand
  subscribe_user : Ident → Ident → HubCommand
  broadcast_market : Ident → Message → HubCommand
  broadcast_user : Ident → Message → HubCommand

pub data HubEvent : Type 0 where
  registered : Ident → HubEvent
  unregistered : Ident → HubEvent
  command : HubCommand → HubEvent

abbrev pub mem : Ident → List Ident → Bool
mem c [] = false
mem c (x ∷ xs) = x == c || mem c xs

-- `set[c] = true` and `delete(set, c)`
abbrev pub set_add : Ident → List Ident → List Ident
set_add c xs = if mem c xs then xs else c ∷ xs

abbrev pub set_delete : Ident → List Ident → List Ident
set_delete c [] = []
set_delete c (x ∷ xs) = let rest = set_delete c xs in if x == c then rest else x ∷ rest

abbrev pub or_empty : Option (List Ident) → List Ident
or_empty none = []
or_empty (some s) = s

abbrev pub subs_of : Ident → List (Ident × List Ident) → List Ident
subs_of k m = or_empty (lookup k m)

abbrev pub keep_set : Ident → List Ident → List (Ident × List Ident) → List (Ident × List Ident)
keep_set k [] m = m
keep_set k (x ∷ xs) m = (k, x ∷ xs) ∷ m

-- Taking a client out of one set of a map, or of each, with the sets that become empty.
abbrev pub remove_from : Ident → Ident → List (Ident × List Ident) → List (Ident × List Ident)
remove_from k c [] = []
remove_from k c (e ∷ m) =
    let rest = remove_from k c m in if e.0 == k then keep_set e.0 (set_delete c e.1) m else e ∷ rest

abbrev pub remove_from_all : Ident → List (Ident × List Ident) → List (Ident × List Ident)
remove_from_all c [] = []
remove_from_all c (e ∷ m) = keep_set e.0 (set_delete c e.1) (remove_from_all c m)

-- `select { case client.Send <- msg: default: }`, on a channel that is open.
unfoldable pub push : Message → Client → Client
push msg c =
    if ltb (length c.buffer) c.capacity then record c { buffer = c.buffer ++ msg ∷ [] } else c

-- The loop of a broadcast over the clients of a set.
unfoldable pub deliver : Message → List Ident → (Ident → Client) → Option (Ident → Client)
unfolding push
deliver msg [] objects = some objects
deliver msg (c ∷ cs) objects =
    let rest = deliver msg cs (update c (push msg (objects c)) objects) in
    if (objects c).is_open then rest else none

abbrev pub with_objects : Hub → Option (Ident → Client) → Option Hub
with_objects h none = none
with_objects h (some objects) = some (record h { objects = objects })

abbrev pub is_authenticated : Client → Bool
is_authenticated c = if c.user_id == no_id then false else true

unfoldable pub process_command : HubCommand → Hub → Option Hub
unfolding deliver
process_command (subscribe_market c m) h =
    some (record h { market_subs = insert m (set_add c (subs_of m h.market_subs)) h.market_subs })
process_command (unsubscribe_market c m) h =
    some (record h { market_subs = remove_from m c h.market_subs })
process_command (subscribe_user c u) h =
    if is_authenticated (h.objects c)
    then some (record h { user_subs = insert u (set_add c (subs_of u h.user_subs)) h.user_subs })
    else some h
process_command (broadcast_market m msg) h =
    with_objects h (deliver msg (subs_of m h.market_subs) h.objects)
process_command (broadcast_user u msg) h =
    with_objects h (deliver msg (subs_of u h.user_subs) h.objects)

abbrev pub closed_client : Client → Client
closed_client c = record c { is_open = false }

abbrev pub without_client : Ident → Hub → Hub
without_client c h = record {
  clients = set_delete c h.clients;
  market_subs = remove_from_all c h.market_subs;
  user_subs = remove_from_all c h.user_subs;
  client_count = length (set_delete c h.clients);
  objects = update c (closed_client (h.objects c)) h.objects;
}

-- `close(client.Send)` panics on a channel that is closed.
abbrev pub close_client : Ident → Hub → Option Hub
close_client c h = if (h.objects c).is_open then some (without_client c h) else none

-- A round of the loop of Run.
unfoldable pub hub_step : HubEvent → Hub → Option Hub
unfolding process_command
hub_step (registered c) h =
    some (record h { clients = set_add c h.clients; client_count = length (set_add c h.clients) })
hub_step (unregistered c) h = if mem c h.clients then close_client c h else some h
hub_step (command cmd) h = process_command cmd h

abbrev pub and_run : (Hub → Option Hub) → Option Hub → Option Hub
and_run f none = none
and_run f (some h) = f h

-- The rounds that a list of events makes, until Stop.
unfoldable pub run_hub : List HubEvent → Hub → Option Hub
unfolding hub_step
run_hub [] h = some h
run_hub (e ∷ es) h = and_run (run_hub es) (hub_step e h)
