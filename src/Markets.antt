-- ===== src/Markets.antt =====
-- services/market-svc/internal/service: market.go and settlement.go. The identifiers that
-- generateID() draws are arguments. Texts (titles, labels) are numbers, as identifiers are, with 0
-- for the empty string.
pub mod Lifecycle
pub mod History
pub mod Settlement
mod Tests
use truth_market.Base.{
  ℕ, suc, ◌+◌, Bool, false, not, ◌&&◌, ◌||◌, none, some, List, [], ◌∷◌, ◌==◌, ltb, if◌then◌else◌,
  length,
}
use truth_market.Domain.{
  Ident, no_id, MarketStatus, draft, open_market, closed, resolved, cancelled_market, MarketType,
  binary, multi, Market, Outcome,
}
use truth_market.Errors.{app_error, bad_request}
use truth_market.Store.{
  Db, Action, ◌>>=◌, ◌>>◌, pure, raise_if, with_tx, create_market_row, get_market_row,
  update_market, create_outcomes, list_outcomes, set_winner,
}

abbrev status_number : MarketStatus → ℕ
status_number draft = 0
status_number open_market = 1
status_number closed = 2
status_number resolved = 3
status_number cancelled_market = 4

abbrev pub same_status : MarketStatus → MarketStatus → Bool
same_status a b = status_number a == status_number b

-- `validTransitions`; a status that it does not list has no transition.
unfoldable pub valid_transitions : MarketStatus → List MarketStatus
valid_transitions draft = open_market ∷ []
valid_transitions open_market = closed ∷ []
valid_transitions closed = resolved ∷ cancelled_market ∷ []
valid_transitions resolved = []
valid_transitions cancelled_market = []

abbrev pub mem_status : MarketStatus → List MarketStatus → Bool
mem_status s [] = false
mem_status s (t ∷ ts) = same_status t s || mem_status s ts

unfoldable pub is_valid_transition : MarketStatus → MarketStatus → Bool
unfolding valid_transitions
is_valid_transition from to = mem_status to (valid_transitions from)

pub record CreateMarketRequest : Type 0 where
  pub title : Ident
  pub description : Ident
  pub market_type : MarketType
  pub category : Ident
  pub outcome_labels : List Ident
  pub created_by : Ident

-- Whether a request has labels that its type does not allow.
unfoldable pub bad_labels : MarketType → ℕ → Bool
bad_labels binary n = not (n == 0) && not (n == 2)
bad_labels multi n = ltb n 2

-- The labels "Yes" and "No" of a binary market are arguments.
unfoldable pub labels_of : Ident → Ident → CreateMarketRequest → List Ident
labels_of yes_label no_label req = elim req.market_type [
  | binary ↦
      if length req.outcome_labels == 2 then req.outcome_labels else yes_label ∷ no_label ∷ []
  | multi ↦ req.outcome_labels
]

-- The outcomes of the labels, from an index on.
unfoldable pub outcomes_of : (ℕ → Ident) → Ident → ℕ → List Ident → List Outcome
outcomes_of ids m i [] = []
outcomes_of ids m i (l ∷ ls) =
    record { id = ids i; market_id = m; label = l; index = i; is_winner = false }
    ∷ outcomes_of ids m (suc i) ls

abbrev pub new_market : Ident → CreateMarketRequest → Market
new_market i req = record {
  id = i;
  title = req.title;
  description = req.description;
  category = req.category;
  market_type = req.market_type;
  status = draft;
  creator_id = req.created_by;
  resolved_outcome_id = none;
}

-- `MarketService.CreateMarket`
unfoldable pub create_market :
    (Db → Db → Db) → Ident → Ident → Ident → (ℕ → Ident) → CreateMarketRequest → Action Market
create_market undo yes_label no_label i ids req = do
  raise_if (req.title == no_id) (app_error bad_request)
  raise_if (bad_labels req.market_type (length req.outcome_labels)) (app_error bad_request)
  with_tx undo (
      create_market_row (new_market i req)
      >> create_outcomes (outcomes_of ids i 0 (labels_of yes_label no_label req)))
  pure (new_market i req)

unfoldable pub get_market : Ident → Action (Market × List Outcome)
get_market i = do m ← get_market_row i; os ← list_outcomes i; pure (m, os)

-- `MarketService.UpdateMarketStatus`
unfoldable pub update_market_status : Ident → MarketStatus → Action Unit
update_market_status i st = do
  m ← get_market_row i
  raise_if (not (is_valid_transition m.status st)) (app_error bad_request)
  update_market (record m { status = st })

abbrev pub has_winner : Ident → List Outcome → Bool
has_winner i [] = false
has_winner i (o ∷ os) = (o.id == i) || has_winner i os

abbrev pub resolved_with : Ident → Market → Market
resolved_with o m = record m { status = resolved; resolved_outcome_id = some o }

-- `MarketService.ResolveMarket`, which pays nobody; the settlement service has its own.
unfoldable pub resolve_market_only : (Db → Db → Db) → Ident → Ident → Action Unit
resolve_market_only undo i winner = do
  m ← get_market_row i
  raise_if (not (same_status m.status closed)) (app_error bad_request)
  os ← list_outcomes i
  raise_if (not (has_winner winner os)) (app_error bad_request)
  with_tx undo (update_market (resolved_with winner m) >> set_winner winner)
