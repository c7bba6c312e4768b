-- ===== src/Http/Laws.antt =====
-- What a request does to the services, from the HTTP handler down to the repositories.
pub mod Admins
pub mod Errors
pub mod Cancelling
pub mod Gates
pub mod Rates
use truth_market.Base.{
  ℕ, ◌≡◌, refl, ◌∙◌, Option, none, some, List, ◌∷◌, map, ◌==◌, if◌then◌else◌, Result, ok, err,
}
use truth_market.Base.Int.{ℤ, pos, ◌+ℤ◌}
use truth_market.Base.Texts.{Text}
use truth_market.Domain.{Ident, Price, Quantity, Money, Order, Trade}
use truth_market.Errors.{Error}
use truth_market.Store.{Db, State}
use truth_market.Store.Cash.{cash}
use truth_market.Trading.Orders.{Draws, service_place_order}
use truth_market.Trading.Guarantees.{Atomic, RollsBack, service_place_order-Atomic}
use truth_market.Rpc.Calls.{GrpcCode, Reply, reply_then, ◌>>=◌, pure, refuse, call, answer}
use truth_market.Rpc.{to_grpc_error, ProtoOrderSide}
use truth_market.Rpc.Trading.{
  RpcPlaceOrder, or_invalid, service_request, rpc_place_order, domain_order_to_proto,
  domain_trade_to_proto, ProtoOrder, ProtoTrade,
}
use truth_market.Http.{HttpReply, succeeded, failed, reply_of, forward}
use truth_market.Http.Trading.{
  PlaceOrderBody, side_of_string, place_request, place_with_side, http_place_order,
}

-- A request that succeeds changes the money of all users by an amount, and one that fails leaves the
-- database as it was.
abbrev pub HttpAtomic : {A : Type 0} → Money → State → HttpReply A × State → Type 0
HttpAtomic d s (succeeded code a, t) = cash t ≡ cash s +ℤ d
HttpAtomic d s (failed code, t) = t.db ≡ s.db

abbrev RpcAtomic : {A : Type 0} → Money → State → Result GrpcCode A × State → Type 0
RpcAtomic d s (ok a, t) = cash t ≡ cash s +ℤ d
RpcAtomic d s (err e, t) = t.db ≡ s.db

RpcAtomic-answer :
    {A B : Type 0} (f : A → B) (g : Error → GrpcCode) (d : Money) (s : State)
    (r : Result Error A × State)
    → Atomic d s r
    → RpcAtomic d s (reply_then (λ a. pure (f a)) (answer g r))
unfolding pure
RpcAtomic-answer f g d s (ok a, t) h = h
RpcAtomic-answer f g d s (err e, t) h = h

HttpAtomic-reply_of :
    {A B : Type 0} (code : ℕ) (f : A → B) (d : Money) (s : State) (r : Result GrpcCode A × State)
    → RpcAtomic d s r
    → HttpAtomic d s (reply_of code f r)
HttpAtomic-reply_of code f d s (ok a, t) h = h
HttpAtomic-reply_of code f d s (err c, t) h = h

module _ (parse : Text → Option ℤ) (print : ℤ → Text) (undo : Db → Db → Db)
    (div : Money → Quantity → Price) (d : Draws) (rolls : RollsBack undo) where
  -- The call of PlaceOrder with what its decimals parse to.
  abbrev placed_as : RpcPlaceOrder → Option ℤ → Option ℤ → Reply (ProtoOrder × List ProtoTrade)
  placed_as req price qty = or_invalid price >>= λ p. or_invalid qty >>= λ q.
      call to_grpc_error (service_place_order undo div d (service_request parse print req p q))
      >>= λ placed.
          pure (domain_order_to_proto print placed.0, map (domain_trade_to_proto print) placed.1)

  placed_as-RpcAtomic :
      (req : RpcPlaceOrder) (s : State) (price qty : Option ℤ)
      → RpcAtomic (pos 0) s (placed_as req price qty s)
  unfolding or_invalid ◌>>=◌ pure refuse call
  placed_as-RpcAtomic req s none qty = refl
  placed_as-RpcAtomic req s (some p) none = refl
  placed_as-RpcAtomic req s (some p) (some q) =
      RpcAtomic-answer
        (λ (placed : Order × List Trade).
          (domain_order_to_proto print placed.0, map (domain_trade_to_proto print) placed.1))
        to_grpc_error (pos 0) s
        (service_place_order undo div d (service_request parse print req p q) s)
        (service_place_order-Atomic undo div d (service_request parse print req p q) s rolls)

  rpc_place_order-RpcAtomic :
      (req : RpcPlaceOrder) (s : State)
      → RpcAtomic (pos 0) s (rpc_place_order parse print undo div d req s)
  unfolding rpc_place_order
  rpc_place_order-RpcAtomic req s = placed_as-RpcAtomic req s (parse req.price) (parse req.quantity)

  place_with_side-HttpAtomic :
      (user : Ident) (body : PlaceOrderBody) (side : Option ProtoOrderSide) (s : State)
      → HttpAtomic (pos 0) s (place_with_side parse print undo div d user body side s)
  unfolding forward
  place_with_side-HttpAtomic user body none s = refl
  place_with_side-HttpAtomic user body (some side) s =
      HttpAtomic-reply_of 201 _ (pos 0) s _
        (rpc_place_order-RpcAtomic (place_request parse print user body side) s)

  -- A request to place an order, from HTTP down to the database, under a transaction manager that rolls
  -- back: if it succeeds, the money of all users is what it was, and if it fails, in the gateway, in the
  -- server or in the service, the database is what it was.
  pub http_place_order-HttpAtomic :
      (user : Option Ident) (body : Option PlaceOrderBody) (s : State)
      → HttpAtomic (pos 0) s (http_place_order parse print undo div d user body s)
  unfolding http_place_order
  http_place_order-HttpAtomic user none s = refl
  http_place_order-HttpAtomic none (some body) s = refl
  http_place_order-HttpAtomic (some user) (some body) s =
      place_with_side-HttpAtomic user body (side_of_string body.side) s
