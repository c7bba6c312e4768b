-- ===== src/Markets/Settlement/Payouts.antt =====
-- The money that settling a market pays.
use truth_market.Base.{◌≡◌, ◌&&◌, Bool, true, false, List, [], ◌∷◌, if◌then◌else◌, ◌==◌}
use truth_market.Base.Int.{pos, ◌+ℤ◌, ◌-ℤ◌, int_laws, ltb_ℤ}
use truth_market.Domain.{cost_of, zero_dec, Ident, Money, money_of, Position}
use truth_market.Store.{Action, ◌>>◌}
use truth_market.Store.Cash.{Shifts}
use truth_market.Store.Rules.{shift_then, Quiet-Shifts, set_funds}
use truth_market.Store.Quiet.{pure-Quiet}
use truth_market.Markets.Settlement.{
  credit, is_paid, pay_winners, is_refunded, refund_of, refund_holders,
}

-- What a list of positions is paid when an outcome wins: a dollar for each token of it, where the
-- quantity is positive.
unfoldable pub payout : Ident → List Position → Money
payout winner [] = pos 0
payout winner (p ∷ ps) =
    let rest = payout winner ps in
    if (p.outcome_id == winner) && ltb_ℤ zero_dec p.quantity
    then money_of p.quantity +ℤ rest
    else rest

-- What the holders of a list of positions are refunded.
unfoldable pub refunds : List Position → Money
refunds [] = pos 0
refunds (p ∷ ps) =
    let rest = refunds ps in
    let refund = cost_of p.quantity p.avg_price in
    if ltb_ℤ zero_dec p.quantity && ltb_ℤ zero_dec refund then refund +ℤ rest else rest

credit_sum : (b l c : Money) → b +ℤ c +ℤ l -ℤ (b +ℤ l) ≡ c
credit_sum b l c = omega int_laws

pub credit-Shifts : (i : Ident) (c : Money) → Shifts c (credit i c)
unfolding credit
credit-Shifts i c =
    set_funds i (λ u. u.balance +ℤ c) (λ u. u.locked_balance) _
      (λ u. credit_sum u.balance u.locked_balance c)

-- A step that is taken, with its amount, only if a test passes.
if-Shifts :
    (b : Bool) (i : Ident) (c d : Money) (rest : Action Unit)
    → Shifts d rest
    → Shifts (if b then c +ℤ d else d) (if b then credit i c >> rest else rest)
if-Shifts true i c d rest h = shift_then c d (credit i c) (λ _. rest) (credit-Shifts i c) (λ _. h)
if-Shifts false i c d rest h = h

pub pay_winners-Shifts :
    (winner : Ident) (ps : List Position) → Shifts (payout winner ps) (pay_winners winner ps)
unfolding pay_winners payout
pay_winners-Shifts winner [] = Quiet-Shifts _ (pure-Quiet tt)
pay_winners-Shifts winner (p ∷ ps) =
    if-Shifts (is_paid winner p) p.user_id (money_of p.quantity) _ _ (pay_winners-Shifts winner ps)

pub refund_holders-Shifts : (ps : List Position) → Shifts (refunds ps) (refund_holders ps)
unfolding refund_holders refunds
refund_holders-Shifts [] = Quiet-Shifts _ (pure-Quiet tt)
refund_holders-Shifts (p ∷ ps) =
    if-Shifts (is_refunded p) p.user_id (refund_of p) _ _ (refund_holders-Shifts ps)
