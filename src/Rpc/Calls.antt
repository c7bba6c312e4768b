-- ===== src/Rpc/Calls.antt =====
-- A gRPC call: it reads and writes the state of the services and answers with a message or a status.
use truth_market.Base.{Result, ok, err}
use truth_market.Errors.{Error}
use truth_market.Store.{State, Action}

-- The codes that the servers use; `unimplemented` is one of them.
pub data GrpcCode : Type 0 where
  code_not_found unauthenticated permission_denied invalid_argument already_exists : GrpcCode
  internal failed_precondition unimplemented : GrpcCode

abbrev pub Reply : Type 0 → Type 0
Reply A = State → Result GrpcCode A × State

abbrev pub reply_then :
    {A B : Type 0} → (A → Reply B) → Result GrpcCode A × State → Result GrpcCode B × State
reply_then f (ok a, s) = f a s
reply_then f (err e, s) = (err e, s)

infixl 5 ◌>>=◌ ◌>>◌
unfoldable pub ◌>>=◌ : {A B : Type 0} → Reply A → (A → Reply B) → Reply B
◌>>=◌ m f s = reply_then f (m s)

abbrev pub ◌>>◌ : {A B : Type 0} → Reply A → Reply B → Reply B
m >> k = m >>= λ _. k

module _ {A : Type 0} where
  unfoldable pub pure : A → Reply A
  pure a s = (ok a, s)

  unfoldable pub refuse : GrpcCode → Reply A
  refuse c s = (err c, s)

  abbrev pub answer : (Error → GrpcCode) → Result Error A × State → Result GrpcCode A × State
  answer f (ok a, s) = (ok a, s)
  answer f (err e, s) = (err (f e), s)

  -- A method of a service, with its error turned into a status.
  unfoldable pub call : (Error → GrpcCode) → Action A → Reply A
  call f m s = answer f (m s)
