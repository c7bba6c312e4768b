-- ===== src/Http/Laws/Cancelling.antt =====
-- The cancellation of a market over HTTP, which goes through UpdateMarketStatus and not through the
-- settlement service.
use truth_market.Base.{
  ℕ, ◌≡◌, refl, ◌∙◌, Bool, true, false, Option, none, some, List, if◌then◌else◌, Result, ok, err,
}
use truth_market.Base.Texts.{Text}
use truth_market.Base.Maps.{lookup}
use truth_market.Domain.{Ident, Market, MarketStatus}
use truth_market.Errors.{Error, plain_error}
use truth_market.Store.{
  Db, State, Action, and_then, ◌>>=◌, pure, or_raise, gets, modify, raise_if, get_market_row,
  list_outcomes, update_market,
}
use truth_market.Markets.{update_market_status, get_market}
use truth_market.Rpc.Calls.{GrpcCode, Reply, reply_then, call, answer, ◌>>◌}
use truth_market.Rpc.Calls
use truth_market.Rpc.{to_grpc_error, ProtoMarketStatus, proto_market_status_to_domain}
use truth_market.Rpc.Market.{rpc_update_market_status, rpc_get_market}
use truth_market.Http.{HttpReply, reply_of, forward}
use truth_market.Http.Admin.{
  proto_market_to_response, with_body, update_with, require_admin, admin_status,
  http_update_market_status,
}

-- The users, what they hold and what they have ordered are as before.
abbrev pub SameHoldings : State → State → Type 0
SameHoldings s t =
    (t.db.users ≡ s.db.users)
    × (t.db.positions ≡ s.db.positions)
    × (t.db.orders ≡ s.db.orders)
    × (t.registry ≡ s.registry)

same : (s : State) → SameHoldings s s
same s = (refl, refl, refl, refl)

chained : (s t r : State) → SameHoldings s t → SameHoldings t r → SameHoldings s r
chained s t r h k = (k.0 ∙ h.0, k.1 ∙ h.1, k.2 ∙ h.2, k.3 ∙ h.3)

Holding : {A : Type 0} → Action A → Type 0
Holding m = (s : State) → SameHoldings s (m s).1

Holding-then :
    {A B : Type 0} (m : Action A) (f : A → Action B)
    → Holding m
    → ((a : A) → Holding (f a))
    → Holding (m >>= f)
unfolding ◌>>=◌ Holding
Holding-then {B = B} m f h k s = after (m s) (h s)
  where
    after : (r : Result Error _ × State) → SameHoldings s r.1 → SameHoldings s (and_then f r).1
    after (ok a, t) g = chained s t (f a t).1 g (k a t)
    after (err e, t) g = g

or_raise-Holding :
    {A : Type 0} (e : Error) (o : Option A) (s : State) → SameHoldings s (or_raise e o s).1
unfolding or_raise
or_raise-Holding e none s = same s
or_raise-Holding e (some a) s = same s

raise_if-Holding : (b : Bool) (e : Error) → Holding (raise_if b e)
unfolding raise_if Holding
raise_if-Holding true e s = same s
raise_if-Holding false e s = same s

gets-Holding : {A : Type 0} (f : Db → A) → Holding (gets f)
unfolding gets Holding
gets-Holding f s = same s

pure-Holding : {A : Type 0} (a : A) → Holding (pure a)
unfolding pure Holding
pure-Holding a s = same s

-- A write to the markets.
markets-Holding :
    (f : Db → List (Ident × Market)) → Holding (modify (λ db. record db { markets = f db }))
unfolding modify Holding
markets-Holding f s = same s

update_market-Holding : (m : Market) → Holding (update_market m)
unfolding update_market
update_market-Holding m =
    Holding-then _ _ (gets-Holding _)
      (λ known. Holding-then _ _ (raise_if-Holding _ _) (λ t. markets-Holding _))

get_market_row-Holding : (i : Ident) → Holding (get_market_row i)
unfolding get_market_row Holding
get_market_row-Holding i s = or_raise-Holding plain_error (lookup i s.db.markets) s

update_market_status-Holding : (i : Ident) (st : MarketStatus) → Holding (update_market_status i st)
unfolding update_market_status
update_market_status-Holding i st =
    Holding-then _ _ (get_market_row-Holding i)
      (λ m. Holding-then _ _ (raise_if-Holding _ _) (λ t. update_market-Holding _))

get_market-Holding : (i : Ident) → Holding (get_market i)
unfolding get_market list_outcomes
get_market-Holding i =
    Holding-then _ _ (get_market_row-Holding i)
      (λ m. Holding-then _ _ (gets-Holding _) (λ os. pure-Holding _))

call-SameHoldings :
    {A : Type 0} (m : Action A)
    → Holding m
    → (s : State) → SameHoldings s (call to_grpc_error m s).1
unfolding call Holding
call-SameHoldings {A = A} m h s = answered (m s) (h s)
  where
    answered :
        (r : Result Error A × State)
        → SameHoldings s r.1
        → SameHoldings s (answer to_grpc_error r).1
    answered (ok a, t) g = g
    answered (err e, t) g = g

replied-SameHoldings :
    {A B : Type 0} (code : ℕ) (f : A → B) (s : State) (r : Result GrpcCode A × State)
    → SameHoldings s r.1
    → SameHoldings s (reply_of code f r).1
replied-SameHoldings code f s (ok a, t) h = h
replied-SameHoldings code f s (err c, t) h = h

then-SameHoldings :
    {A B : Type 0} (f : A → Reply B) (s : State) (r : Result GrpcCode A × State)
    → SameHoldings s r.1
    → ((a : A) (t : State) → SameHoldings t (f a t).1)
    → SameHoldings s (reply_then f r).1
then-SameHoldings f s (ok a, t) h k = chained s t (f a t).1 h (k a t)
then-SameHoldings f s (err c, t) h k = h

rpc_get_market-SameHoldings : (i : Ident) (s : State) → SameHoldings s (rpc_get_market i s).1
unfolding rpc_get_market Calls.◌>>=◌ Calls.pure
rpc_get_market-SameHoldings i s =
    then-SameHoldings _ s _ (call-SameHoldings (get_market i) (get_market-Holding i) s)
      (λ m t. same t)

if_holds :
    {A : Type 0} (b : Bool) (s : State) (x y : HttpReply A × State)
    → SameHoldings s x.1
    → SameHoldings s y.1
    → SameHoldings s (if b then x else y).1
if_holds true s x y p q = p
if_holds false s x y p q = q

updated-SameHoldings :
    (i : Ident) (st : ProtoMarketStatus) (s : State)
    → SameHoldings s ((rpc_update_market_status i st >> rpc_get_market i) s).1
unfolding rpc_update_market_status Calls.◌>>=◌
updated-SameHoldings i st s =
    then-SameHoldings (λ (u : Unit {0}). rpc_get_market i) s (rpc_update_market_status i st s)
      (call-SameHoldings (update_market_status i (proto_market_status_to_domain st))
        (update_market_status-Holding i (proto_market_status_to_domain st)) s)
      (λ u t. rpc_get_market-SameHoldings i t)

update_with-SameHoldings :
    (i : Ident) (o : Option ProtoMarketStatus) (s : State) → SameHoldings s (update_with i o s).1
unfolding forward
update_with-SameHoldings i none s = same s
update_with-SameHoldings i (some st) s =
    replied-SameHoldings 200 proto_market_to_response s
      ((rpc_update_market_status i st >> rpc_get_market i) s) (updated-SameHoldings i st s)

with_body-SameHoldings :
    (i : Ident) (body : Option Text) (s : State)
    → SameHoldings s (with_body body (λ status. update_with i (admin_status status)) s).1
with_body-SameHoldings i none s = same s
with_body-SameHoldings i (some status) s = update_with-SameHoldings i (admin_status status) s

-- A change of a market's status over HTTP, its cancellation included, leaves every user's money and
-- positions, every order and the orderbooks as they were, whatever the reply is: nobody is refunded
-- and no order is cancelled.
pub http_update_market_status-SameHoldings :
    (admin : Option Bool) (i : Ident) (body : Option Text) (s : State)
    → SameHoldings s (http_update_market_status admin i body s).1
unfolding http_update_market_status
http_update_market_status-SameHoldings admin i body s =
    if_holds (require_admin admin) s _ _ (with_body-SameHoldings i body s) (same s)
