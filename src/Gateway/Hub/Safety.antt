-- ===== src/Gateway/Hub/Safety.antt =====
-- The runs of the hub: which never panic, and how one does.
use truth_market.Base.{
  ◌≡◌, refl, ap, ◌∙◌, subst, true, Option, none, some, List, [], ◌∷◌, ◌==◌, length, All, All-map,
  arith, Bool-cases, inl, inr, ==→eq,
}
use truth_market.Base.Maps.{insert, update}
use truth_market.Domain.{Ident}
use truth_market.Gateway.Hub.{
  Hub, Client, Message, HubEvent, registered, unregistered, command, HubCommand, subscribe_market,
  unsubscribe_market, subscribe_user, broadcast_market, broadcast_user, mem, set_add, set_delete,
  subs_of, deliver, process_command, hub_step, run_hub, and_run, closed_client, without_client,
  is_authenticated, with_objects,
}
use truth_market.Gateway.Hub.Sets.{
  Distinct-set_delete, Distinct-set_add, All-set_add, AllSets, AllSets-subs_of, AllSets-insert,
  AllSets-remove_from, AllSets-remove_from_all,
}
use truth_market.Gateway.Hub.Delivery.{
  IsOpen, IsLive, delivered, is_open-delivered, deliver-live, if_open,
}

-- The registered clients and all subscribers are open, each of them once in its set, and the count
-- is that of the registered clients.
pub record IsHub (h : Hub) : Type 0 where
  pub clients : IsLive h.objects h.clients
  pub market_subs : AllSets (IsLive h.objects) h.market_subs
  pub user_subs : AllSets (IsLive h.objects) h.user_subs
  pub counted : h.client_count ≡ length h.clients

All-set_delete :
    (P : Ident → Type 0) (c : Ident) (s : List Ident) → All P s → All P (set_delete c s)
All-set_delete P c [] a = tt
All-set_delete P c (x ∷ xs) a = elim (Bool-cases (x == c)) [
  | inl q ↦ rw q (All-set_delete P c xs a.1)
  | inr q ↦ rw q (a.0, All-set_delete P c xs a.1)
]

IsLive-set_delete :
    (objects : Ident → Client) (c : Ident) (s : List Ident)
    → IsLive objects s
    → IsLive objects (set_delete c s)
IsLive-set_delete objects c s v =
    (All-set_delete (IsOpen objects) c s v.0, Distinct-set_delete c s v.1)

IsLive-set_add :
    (objects : Ident → Client) (c : Ident) (s : List Ident)
    → IsOpen objects c
    → IsLive objects s
    → IsLive objects (set_add c s)
IsLive-set_add objects c s o v = (All-set_add (IsOpen objects) c s o v.0, Distinct-set_add c s v.1)

-- The other clients of a set stay open when one is closed.
IsOpen-set_delete :
    (objects : Ident → Client) (c : Ident) (s : List Ident)
    → All (IsOpen objects) s
    → All (IsOpen (update c (closed_client (objects c)) objects)) (set_delete c s)
IsOpen-set_delete objects c [] a = tt
IsOpen-set_delete objects c (x ∷ xs) a = elim (Bool-cases (x == c)) [
  | inl q ↦ rw q (IsOpen-set_delete objects c xs a.1)
  | inr q ↦ rw (q, q) (a.0, IsOpen-set_delete objects c xs a.1)
]

IsLive-closed :
    (objects : Ident → Client) (c : Ident) (s : List Ident)
    → IsLive objects s
    → IsLive (update c (closed_client (objects c)) objects) (set_delete c s)
IsLive-closed objects c s v = (IsOpen-set_delete objects c s v.0, Distinct-set_delete c s v.1)

-- Clients whose channels are as open as before.
IsLive-same :
    (objects objects' : Ident → Client) (s : List Ident)
    → ((j : Ident) → (objects' j).is_open ≡ (objects j).is_open)
    → IsLive objects s
    → IsLive objects' s
IsLive-same objects objects' s e v =
    (All-map (IsOpen objects) (IsOpen objects') (λ j h. e j ∙ h) s v.0, v.1)

AllSets-map :
    (P Q : List Ident → Type 0)
    → ((s : List Ident) → P s → Q s)
    → (m : List (Ident × List Ident)) → AllSets P m
    → AllSets Q m
AllSets-map P Q f [] a = tt
AllSets-map P Q f (e ∷ m) a = (f e.1 a.0, AllSets-map P Q f m a.1)

-- The event finds the hub as the client's pumps see to it when the hub takes its events in the order
-- in which they are sent: a client is registered with an open channel and subscribes while it is
-- registered.
abbrev pub IsOrderly : HubEvent → Hub → Type 0
IsOrderly (registered c) h = IsOpen h.objects c
IsOrderly (command (subscribe_market c m)) h = mem c h.clients ≡ true
IsOrderly (command (subscribe_user c u)) h = mem c h.clients ≡ true
IsOrderly _ h = Unit

abbrev pub AfterStep : (Hub → Type 0) → Option Hub → Type 0
AfterStep P none = Unit
AfterStep P (some h) = P h

-- Each event of a run is orderly where it is taken.
unfoldable pub AllOrderly : List HubEvent → Hub → Type 0
unfolding hub_step
AllOrderly [] h = Unit
AllOrderly (e ∷ es) h = IsOrderly e h × AfterStep (AllOrderly es) (hub_step e h)

pub All-mem : (P : Ident → Type 0) (c : Ident) (xs : List Ident) → mem c xs ≡ true → All P xs → P c
All-mem P c [] e a = absurd cc
All-mem P c (x ∷ xs) e a = elim (Bool-cases (x == c)) [
  | inl q ↦ subst P (==→eq x c q) a.0
  | inr q ↦ All-mem P c xs (ground arith) a.1
]

-- The hub takes a step to a state with the invariant.
abbrev pub StepsTo : Option Hub → Type 0
StepsTo o = (h' : Hub) × (o ≡ some h') × IsHub h'

no_set : (objects : Ident → Client) → IsLive objects []
no_set objects = (tt, tt)

pub subscribed :
    (objects : Ident → Client) (c k : Ident) (m : List (Ident × List Ident))
    → IsOpen objects c
    → AllSets (IsLive objects) m
    → AllSets (IsLive objects) (insert k (set_add c (subs_of k m)) m)
subscribed objects c k m o v =
    AllSets-insert (IsLive objects) k (set_add c (subs_of k m)) m
      (IsLive-set_add objects c (subs_of k m) o
        (AllSets-subs_of (IsLive objects) k m (no_set objects) v))
      v

sent :
    (msg : Message) (h : Hub) (cs : List Ident)
    → IsHub h
    → IsLive h.objects cs
    → StepsTo (with_objects h (deliver msg cs h.objects))
sent msg h cs v l = (
  record h { objects = delivered msg cs h.objects },
  ap (with_objects h) (deliver-live msg cs h.objects l),
  record {
    clients = kept h.clients v.clients;
    market_subs = AllSets-map _ _ kept h.market_subs v.market_subs;
    user_subs = AllSets-map _ _ kept h.user_subs v.user_subs;
    counted = v.counted;
  },
)
  where
    kept : (s : List Ident) → IsLive h.objects s → IsLive (delivered msg cs h.objects) s
    kept s =
        IsLive-same h.objects (delivered msg cs h.objects) s (is_open-delivered msg cs h.objects)

process_command-IsHub :
    (cmd : HubCommand) (h : Hub)
    → IsHub h
    → IsOrderly (command cmd) h
    → StepsTo (process_command cmd h)
unfolding process_command
process_command-IsHub (subscribe_market c m) h v o = (
  _,
  refl,
  record {
    clients = v.clients;
    market_subs =
        subscribed h.objects c m h.market_subs (All-mem _ c h.clients o v.clients.0) v.market_subs;
    user_subs = v.user_subs;
    counted = v.counted;
  },
)
process_command-IsHub (unsubscribe_market c m) h v o = (
  _,
  refl,
  record {
    clients = v.clients;
    market_subs =
        AllSets-remove_from (IsLive h.objects) m c h.market_subs (IsLive-set_delete h.objects c)
          v.market_subs;
    user_subs = v.user_subs;
    counted = v.counted;
  },
)
process_command-IsHub (subscribe_user c u) h v o =
    elim (Bool-cases (is_authenticated (h.objects c))) [
      | inl q ↦ (
        record h { user_subs = insert u (set_add c (subs_of u h.user_subs)) h.user_subs },
        rw q refl,
        record {
          clients = v.clients;
          market_subs = v.market_subs;
          user_subs =
              subscribed h.objects c u h.user_subs (All-mem _ c h.clients o v.clients.0)
                v.user_subs;
          counted = v.counted;
        },
      )
      | inr q ↦ (h, rw q refl, v)
    ]
process_command-IsHub (broadcast_market m msg) h v o =
    sent msg h (subs_of m h.market_subs) v
      (AllSets-subs_of (IsLive h.objects) m h.market_subs (no_set h.objects) v.market_subs)
process_command-IsHub (broadcast_user u msg) h v o =
    sent msg h (subs_of u h.user_subs) v
      (AllSets-subs_of (IsLive h.objects) u h.user_subs (no_set h.objects) v.user_subs)

hub_step-IsHub : (e : HubEvent) (h : Hub) → IsHub h → IsOrderly e h → StepsTo (hub_step e h)
unfolding hub_step
hub_step-IsHub (registered c) h v o = (
  _,
  refl,
  record {
    clients = IsLive-set_add h.objects c h.clients o v.clients;
    market_subs = v.market_subs;
    user_subs = v.user_subs;
    counted = refl;
  },
)
hub_step-IsHub (unregistered c) h v o = elim (Bool-cases (mem c h.clients)) [
  | inl q ↦ (
    without_client c h,
    rw q (if_open _ _ _ (All-mem _ c h.clients q v.clients.0)),
    record {
      clients = closed h.clients v.clients;
      market_subs = AllSets-remove_from_all _ _ c h.market_subs closed v.market_subs;
      user_subs = AllSets-remove_from_all _ _ c h.user_subs closed v.user_subs;
      counted = refl;
    },
  )
  | inr q ↦ (h, rw q refl, v)
]
  where
    closed :
        (s : List Ident)
        → IsLive h.objects s
        → IsLive (update c (closed_client (h.objects c)) h.objects) (set_delete c s)
    closed = IsLive-closed h.objects c
hub_step-IsHub (command cmd) h v o = process_command-IsHub cmd h v o

-- From a hub that meets its invariant, a run whose events are orderly never panics, and it ends in a
-- hub that meets the invariant: no broadcast sends on a closed channel, no channel is closed twice,
-- and the count of clients is right.
pub run_hub-IsHub :
    (es : List HubEvent) (h : Hub) → IsHub h → AllOrderly es h → StepsTo (run_hub es h)
unfolding run_hub AllOrderly
run_hub-IsHub [] h v o = (h, refl, v)
run_hub-IsHub (e ∷ es) h v o =
    let (h', q, v') = hub_step-IsHub e h v o.0 in
    let (h'', r, v'') = run_hub-IsHub es h' v' (subst (AfterStep (AllOrderly es)) q o.1) in
    (h'', ap (and_run (run_hub es)) q ∙ r, v'')
