-- ===== src/Trading/Mint.antt =====
-- services/trading-svc/internal/service/mint.go.
use truth_market.Base.{ℕ, suc, List, [], ◌∷◌, ◌==◌, if◌then◌else◌}
use truth_market.Base.Int.{◌-ℤ◌, ltb_ℤ}
use truth_market.Domain.{
  Ident, no_id, Quantity, money_of, one_price, Position, MintTransaction, Outcome,
}
use truth_market.Errors.{app_error, insufficient_balance}
use truth_market.Store.{
  Db, Action, ◌>>=◌, ◌>>◌, pure, raise_if, with_tx, filter, get_user, update_balance, upsert,
  create_mint_tx, list_outcomes, list_positions_by_user,
}

abbrev pub minted_position : Ident → Ident → Ident → Quantity → Outcome → Position
minted_position i user m q outcome = record {
  id = i;
  user_id = user;
  market_id = m;
  outcome_id = outcome.id;
  quantity = q;
  avg_price = one_price;
}

-- The loop over the outcomes, from the n-th on: a position of each is upserted.
unfoldable pub mint_positions :
    (ℕ → Ident) → ℕ → Ident → Ident → Quantity → List Outcome → Action (List Position)
mint_positions ids n user m q [] = pure []
mint_positions ids n user m q (o ∷ os) = do
  upsert (minted_position (ids n) user m q o)
  rest ← mint_positions ids (suc n) user m q os
  pure (minted_position (ids n) user m q o ∷ rest)

abbrev pub mint_tx : Ident → Ident → Ident → Quantity → MintTransaction
mint_tx i user m q = record {
  id = i;
  user_id = user;
  market_id = m;
  quantity = q;
  cost = money_of q;
}

-- The body of the transaction; the cost is a dollar for each token.
unfoldable pub mint_tokens_tx :
    (ℕ → Ident) → Ident → Ident → Ident → Quantity → Action (List Position)
mint_tokens_tx ids tx_id user_id m q = do
  user ← get_user user_id
  raise_if (ltb_ℤ user.balance (money_of q)) (app_error insufficient_balance)
  outcomes ← list_outcomes m
  positions ← mint_positions ids 0 user_id m q outcomes
  update_balance user_id (user.balance -ℤ money_of q) user.locked_balance
  create_mint_tx (mint_tx tx_id user_id m q)
  pure positions

-- `MintService.MintTokens`
unfoldable pub mint_tokens :
    (Db → Db → Db) → (ℕ → Ident) → Ident → Ident → Ident → Quantity → Action (List Position)
mint_tokens undo ids tx_id user m q = with_tx undo (mint_tokens_tx ids tx_id user m q)

unfoldable pub get_positions : Ident → Ident → Action (List Position)
get_positions user m = do
  positions ← list_positions_by_user user
  pure (if m == no_id then positions else filter (λ (p : Position). p.market_id == m) positions)
