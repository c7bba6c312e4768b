-- ===== src/Gateway/Hub/Races.antt =====
-- Two runs that the hub allows: a subscription that is taken after the client's end, and one to the
-- channel of another user.
use truth_market.Base.{
  ◌≡◌, refl, ap, ◌∙◌, Bool, true, false, Option, none, some, List, [], ◌∷◌, ◌==◌, if◌then◌else◌,
  arith, Bool-cases, inl, inr, ==_refl, ==→eq,
}
use truth_market.Base.Maps.{insert, update, lookup-insert}
use truth_market.Domain.{Ident}
use truth_market.Gateway.Hub.{
  Hub, Client, Message, HubEvent, unregistered, command, subscribe_market, broadcast_market, mem,
  set_add, subs_of, push, deliver, process_command, hub_step, run_hub, and_run, without_client,
  with_objects,
}
use truth_market.Gateway.Hub.Delivery.{if_open}
use truth_market.Gateway.Hub.Safety.{IsHub, All-mem}
use truth_market.Gateway.Hub.Sets.{mem-set_add}

pub subs_of-insert :
    (k : Ident) (s : List Ident) (m : List (Ident × List Ident)) → subs_of k (insert k s m) ≡ s
subs_of-insert k s m = rw (lookup-insert k k s m, ==_refl k) refl

if_none {ℓ} : {A : Type ℓ} (b : Bool) (x : Option A) → x ≡ none → (if b then x else none) ≡ none
if_none true x e = e
if_none false x e = refl

-- A loop over a set with a closed client panics, whatever the others are.
deliver-closed :
    (msg : Message) (c : Ident) (cs : List Ident) (objects : Ident → Client)
    → mem c cs ≡ true
    → (objects c).is_open ≡ false
    → deliver msg cs objects ≡ none
unfolding deliver
deliver-closed msg c [] objects m q = absurd cc
deliver-closed msg c (x ∷ xs) objects m q = elim (Bool-cases (x == c)) [
  | inl e ↦ shut (ap (λ i. (objects i).is_open) (==→eq x c e) ∙ q)
  | inr e ↦ if_none (objects x).is_open _ (
      deliver-closed msg c xs (update x (push msg (objects x)) objects) (ground arith)
        (ground arith))
]
  where
    shut :
        (objects x).is_open ≡ false
        → (if (objects x).is_open
            then deliver msg xs (update x (push msg (objects x)) objects)
            else none)
          ≡ none
    shut r =
        ap (λ b. if b then deliver msg xs (update x (push msg (objects x)) objects) else none) r

closed_for_good : (c : Ident) (h : Hub) → ((without_client c h).objects c).is_open ≡ false
closed_for_good c h = rw (==_refl c) refl

-- A subscription that the hub takes after the client's unregistration puts a closed channel into the
-- set, so that the next broadcast to the market panics: so it is for every registered client, market
-- and message.
pub late_subscription_panics :
    (c m : Ident) (msg : Message) (h : Hub)
    → IsHub h
    → mem c h.clients ≡ true
    → run_hub
        (unregistered c ∷ command (subscribe_market c m) ∷ command (broadcast_market m msg) ∷ [])
        h
      ≡ none
unfolding run_hub hub_step process_command
late_subscription_panics c m msg h v e =
    ap (and_run (run_hub rest))
      (if_open _ _ _ e ∙ if_open _ _ _ (All-mem _ c h.clients e v.clients.0))
    ∙ broadcast_fails (subs_of-insert m subs g.market_subs)
  where
    rest : List HubEvent
    rest = command (subscribe_market c m) ∷ command (broadcast_market m msg) ∷ []

    g : Hub
    g = without_client c h

    subs : List Ident
    subs = set_add c (subs_of m g.market_subs)

    broadcast_fails : subs_of m (insert m subs g.market_subs) ≡ subs → run_hub rest g ≡ none
    broadcast_fails s =
        ap
          (λ o.
            and_run some (with_objects (record g { market_subs = insert m subs g.market_subs }) o))
          (deliver-closed msg c _ g.objects (ap (mem c) s ∙ mem-set_add c (subs_of m g.market_subs))
            (closed_for_good c h))
