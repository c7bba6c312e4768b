-- ===== src/Http.antt =====
-- services/gateway/internal/handler and middleware: the HTTP side of the calls, on the gRPC servers
-- themselves. A reply is a status with the data of its body; the texts of errors are left out. JSON is
-- an argument: a body is `none` if it does not bind. A request's user is what the authentication
-- middleware puts into its context.
pub mod Trading
pub mod Admin
pub mod Middleware
pub mod Laws
mod Tests
use truth_market.Base.{ℕ, Result, ok, err}
use truth_market.Store.{State}
use truth_market.Rpc.Calls.{
  GrpcCode, code_not_found, unauthenticated, permission_denied, invalid_argument, already_exists,
  internal, failed_precondition, unimplemented, Reply,
}

pub data HttpReply (A : Type 0) : Type 0 where
  succeeded : ℕ → A → HttpReply A
  failed : ℕ → HttpReply A

-- A request's effect on the services, and its reply.
abbrev pub Handler : Type 0 → Type 0
Handler A = State → HttpReply A × State

unfoldable pub handle_grpc_error : GrpcCode → ℕ
handle_grpc_error code_not_found = 404
handle_grpc_error invalid_argument = 400
handle_grpc_error unauthenticated = 401
handle_grpc_error permission_denied = 403
handle_grpc_error failed_precondition = 409
handle_grpc_error already_exists = 409
handle_grpc_error internal = 500
handle_grpc_error unimplemented = 500

abbrev pub fail : {A : Type 0} → ℕ → Handler A
fail code s = (failed code, s)

abbrev pub reply_of : {A B : Type 0} → ℕ → (A → B) → Result GrpcCode A × State → HttpReply B × State
reply_of code f (ok a, s) = (succeeded code (f a), s)
reply_of code f (err c, s) = (failed (handle_grpc_error c), s)

-- A call of a server with its answer as the body of a reply.
unfoldable pub forward : {A B : Type 0} → ℕ → (A → B) → Reply A → Handler B
unfolding handle_grpc_error
forward code f m s = reply_of code f (m s)
