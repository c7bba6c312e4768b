-- ===== src/Store/Monad.antt =====
-- A method call of a service: it reads and writes the state and ends with a value or an error. What
-- was written stays written after an error; a transaction manager may undo it.
use truth_market.Base.{Bool, Option, none, some, List, if◌then◌else◌, Result, ok, err}
use truth_market.Domain.{Ident, Order, Trade, Position, MintTransaction, User, Market, Outcome}
use truth_market.Errors.{Error}
use truth_market.Matching.Registry.{Registry}

-- The rows that the repositories keep.
pub record Db : Type 0 where
  pub users : List (Ident × User)
  pub orders : List (Ident × Order)
  pub positions : List Position
  pub trades : List Trade
  pub mints : List MintTransaction
  pub markets : List (Ident × Market)
  pub outcomes : List Outcome

-- The database, and the engines of the trading service's process.
pub record State : Type 0 where
  pub db : Db
  pub registry : Registry

abbrev pub Action : Type 0 → Type 0
Action A = State → Result Error A × State

abbrev pub and_then :
    {A B : Type 0} → (A → Action B) → Result Error A × State → Result Error B × State
and_then f (ok a, s) = f a s
and_then f (err e, s) = (err e, s)

infixl 5 ◌>>=◌ ◌>>◌
unfoldable pub ◌>>=◌ : {A B : Type 0} → Action A → (A → Action B) → Action B
◌>>=◌ m f s = and_then f (m s)

abbrev pub ◌>>◌ : {A B : Type 0} → Action A → Action B → Action B
m >> k = m >>= λ _. k

module _ {A : Type 0} where
  unfoldable pub pure : A → Action A
  pure a s = (ok a, s)

  unfoldable pub raise : Error → Action A
  raise e s = (err e, s)

  unfoldable pub or_raise : Error → Option A → Action A
  or_raise e none s = (err e, s)
  or_raise e (some a) s = (ok a, s)

unfoldable pub gets : {A : Type 0} → (Db → A) → Action A
gets f s = (ok (f s.db), s)

unfoldable pub modify : (Db → Db) → Action Unit
modify f s = (ok tt, record s { db = f s.db })

unfoldable pub raise_if : Bool → Error → Action Unit
raise_if c e s = if c then (err e, s) else (ok tt, s)

abbrev pub with_tx_from :
    {A : Type 0} → (Db → Db → Db) → Db → Result Error A × State → Result Error A × State
with_tx_from undo before (ok a, s) = (ok a, s)
with_tx_from undo before (err e, s) = (err e, record s { db = undo before s.db })

-- TxManager.WithTx. What a failed transaction leaves in the database is an argument, a function of
-- what was there before and at the failure; the engines of the process are not part of it.
unfoldable pub with_tx : {A : Type 0} → (Db → Db → Db) → Action A → Action A
with_tx undo m s = with_tx_from undo s.db (m s)

-- NoOpTxManager undoes nothing.
unfoldable pub no_op_undo : Db → Db → Db
no_op_undo before failed = failed
