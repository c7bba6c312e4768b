-- ===== src/Auth/Users.antt =====
-- infra/postgres/user_repo.go, as the authentication service uses it.
use truth_market.Base.{
  false, Option, none, some, List, [], ◌∷◌, ◌==◌, if◌then◌else◌, Result, ok, err,
}
use truth_market.Base.Maps.{lookup, insert}
use truth_market.Domain.{Ident, User, human, initial_balance, zero_dec}
use truth_market.Errors.{Error, app_error, plain_error, not_found}

-- The user repository of infra/postgres: a missing row is an AppError.
abbrev pub found : {A : Type 0} → Option A → Result Error A
found none = err (app_error not_found)
found (some a) = ok a

unfoldable pub user_by_id : Ident → List (Ident × User) → Result Error User
user_by_id i users = found (lookup i users)

abbrev pub first_wallet : Ident → List (Ident × User) → Option User
first_wallet w [] = none
first_wallet w (u ∷ us) =
    let rest = first_wallet w us in if u.1.wallet_address == w then some u.1 else rest

unfoldable pub user_by_wallet : Ident → List (Ident × User) → Result Error User
user_by_wallet w users = found (first_wallet w users)

abbrev pub new_user : Ident → Ident → User
new_user i wallet = record {
  id = i;
  wallet_address = wallet;
  user_type = human;
  balance = initial_balance;
  locked_balance = zero_dec;
  is_admin = false;
}

-- An INSERT fails on an identifier that is there. The wallet is not: it was looked up before.
abbrev pub create_row :
    User → Option User → List (Ident × User) → Result Error (Unit {0}) × List (Ident × User)
create_row u none users = (ok tt, insert u.id u users)
create_row u (some v) users = (err plain_error, users)
