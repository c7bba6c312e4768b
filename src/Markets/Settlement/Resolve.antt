-- ===== src/Markets/Settlement/Resolve.antt =====
-- Settling a market as a whole: cancelling its orders, closing its books and paying.
use truth_market.Base.{
  ◌≡◌, refl, sym, ap, ◌∙◌, Bool, true, false, Option, none, some, List, [], ◌∷◌, if◌then◌else◌,
  Result, ok, err, ◌==◌,
}
use truth_market.Base.Int.{pos, ◌+ℤ◌}
use truth_market.Domain.{Ident, Money, Position, money_of}
use truth_market.Base.Maps.{lookup}
use truth_market.Errors.{Error, plain_error}
use truth_market.Store.{
  Db, State, Action, ◌>>=◌, ◌>>◌, pure, with_tx, with_tx_from, filter, or_raise, modify, gets,
  get_user, update_balance, list_positions_by_market,
}
use truth_market.Store.Cash.{Ensures, bind-Ensures, cash, total_worth, Quiet, Shifts, Shifted}
use truth_market.Store.Rules.{add_zero, Ensures-mono}
use truth_market.Store.Quiet.{
  raise_if-Quiet, get_market_row-Quiet, list_outcomes-Quiet, update_market-Quiet, set_winner-Quiet,
}
use truth_market.Trading.Funds.{cancel_all-Shifts}
use truth_market.Markets.Settlement.{
  credit, is_paid, pay_winners, is_refunded, refund_of, refund_holders, resolve_market,
  cancel_market,
}
use truth_market.Markets.Settlement.Payouts.{
  payout, refunds, pay_winners-Shifts, refund_holders-Shifts,
}

-- The call changes no position.
unfoldable Still : {A : Type 0} → Action A → Type 0
Still m = (s : State) → Ensures (λ _ t. t.db.positions ≡ s.db.positions) (m s)

both-Still :
    {A B : Type 0} (m : Action A) (k : A → Action B)
    → Still m
    → ((a : A) → Still (k a))
    → Still (m >>= k)
unfolding Still
both-Still m k q f s =
    bind-Ensures (λ _ t. t.db.positions ≡ s.db.positions) (λ _ t. t.db.positions ≡ s.db.positions) m
      k s (q s)
      (λ a t e.
        Ensures-mono (λ _ r. r.db.positions ≡ t.db.positions)
          (λ _ r. r.db.positions ≡ s.db.positions) (k a t) (f a t) (λ b r h. h ∙ e))

or_raise-Still :
    {A : Type 0} (e : Error) (o : Option A) (s : State)
    → Ensures (λ _ t. t.db.positions ≡ s.db.positions) (or_raise e o s)
unfolding or_raise
or_raise-Still e none s = tt
or_raise-Still e (some a) s = refl

get_user-Still : (i : Ident) → Still (get_user i)
unfolding Still get_user
get_user-Still i s = or_raise-Still plain_error (lookup i s.db.users) s

modify-Still : (f : Db → Db) → ((db : Db) → (f db).positions ≡ db.positions) → Still (modify f)
unfolding Still modify
modify-Still f h s = h s.db

update_balance-Still : (i : Ident) (b l : Money) → Still (update_balance i b l)
unfolding update_balance
update_balance-Still i b l = both-Still _ _ (get_user-Still i) (λ u. modify-Still _ (λ _. refl))

credit-Still : (i : Ident) (c : Money) → Still (credit i c)
unfolding credit
credit-Still i c = both-Still _ _ (get_user-Still i) (λ u. update_balance-Still _ _ _)

pure-Still : {A : Type 0} (a : A) → Still (pure a)
unfolding Still pure
pure-Still a s = refl

if-Still :
    (b : Bool) (i : Ident) (c : Money) (rest : Action Unit)
    → Still rest
    → Still (if b then credit i c >> rest else rest)
if-Still true i c rest h = both-Still _ _ (credit-Still i c) (λ _. h)
if-Still false i c rest h = h

pay_winners-Still : (winner : Ident) (ps : List Position) → Still (pay_winners winner ps)
unfolding pay_winners
pay_winners-Still winner [] = pure-Still tt
pay_winners-Still winner (p ∷ ps) =
    if-Still (is_paid winner p) p.user_id (money_of p.quantity) _ (pay_winners-Still winner ps)

refund_holders-Still : (ps : List Position) → Still (refund_holders ps)
unfolding refund_holders
refund_holders-Still [] = pure-Still tt
refund_holders-Still (p ∷ ps) =
    if-Still (is_refunded p) p.user_id (refund_of p) _ (refund_holders-Still ps)

-- The positions of a market.
abbrev pub market_positions : Ident → State → List Position
market_positions market s = filter (λ (p : Position). p.market_id == market) s.db.positions

-- The money of all users has grown by an amount that the positions at the end determine.
abbrev pub Paid : {A : Type 0} → (List Position → Money) → Ident → State → A → State → Type 0
Paid amount market s a t = cash t ≡ cash s +ℤ amount (market_positions market t)

-- The call, if it succeeds, pays what the positions of the market call for.
unfoldable pub PaysOut : {A : Type 0} → (List Position → Money) → Ident → Action A → Type 0
PaysOut amount market m = (s : State) → Ensures (Paid amount market s) (m s)

module _ (amount : List Position → Money) (market : Ident) where
  Quiet-PaysOut :
      {A B : Type 0} (m : Action A) (k : A → Action B)
      → Quiet m
      → ((a : A) → PaysOut amount market (k a))
      → PaysOut amount market (m >>= k)
  unfolding Quiet PaysOut
  Quiet-PaysOut m k q f s =
      bind-Ensures (λ _ t. t.db.users ≡ s.db.users) (Paid amount market s) m k s (q s)
        (λ a t e.
          Ensures-mono (Paid amount market t) (Paid amount market s) (k a t) (f a t)
            (λ b r h. h ∙ ap (λ us. total_worth us +ℤ amount (market_positions market r)) e))

  level-PaysOut :
      {A B : Type 0} (m : Action A) (k : A → Action B)
      → Shifts (pos 0) m
      → ((a : A) → PaysOut amount market (k a))
      → PaysOut amount market (m >>= k)
  unfolding Shifts PaysOut
  level-PaysOut m k q f s =
      bind-Ensures (Shifted (pos 0) s) (Paid amount market s) m k s (q s) (λ a t e.
        Ensures-mono (Paid amount market t) (Paid amount market s) (k a t) (f a t) (λ b r h.
          h ∙ ap (λ x. x +ℤ amount (market_positions market r)) (e ∙ sym (add_zero (cash s)))))

  -- Listing the positions of the market and paying what they call for.
  pay_listed :
      (pay : List Position → Action Unit)
      → ((ps : List Position) → Shifts (amount ps) (pay ps))
      → ((ps : List Position) → Still (pay ps))
      → PaysOut amount market (list_positions_by_market market >>= pay)
  unfolding Shifts Still PaysOut list_positions_by_market ◌>>=◌ gets
  pay_listed pay p q s =
      paid_and_still (pay (market_positions market s) s) (p (market_positions market s) s)
        (q (market_positions market s) s)
    where
      paid_and_still :
          (r : Result Error Unit × State)
          → Ensures (Shifted (amount (market_positions market s)) s) r
          → Ensures (λ _ t. t.db.positions ≡ s.db.positions) r
          → Ensures (Paid amount market s) r
      paid_and_still (ok a, t) g h =
          g
          ∙ ap (λ ps. cash s +ℤ amount (filter (λ (x : Position). x.market_id == market) ps))
              (sym h)
      paid_and_still (err e, t) g h = tt

  with_tx-PaysOut :
      {A : Type 0} (undo : Db → Db → Db) (m : Action A)
      → PaysOut amount market m
      → PaysOut amount market (with_tx undo m)
  unfolding with_tx PaysOut
  with_tx-PaysOut {A = A} undo m h s = committed (m s) (h s)
    where
      committed :
          (r : Result Error A × State)
          → Ensures (Paid amount market s) r
          → Ensures (Paid amount market s) (with_tx_from undo s.db r)
      committed (ok a, t) g = g
      committed (err e, t) g = tt

resolve_market-PaysOut :
    (undo : Db → Db → Db) (market winner : Ident)
    → PaysOut (payout winner) market (resolve_market undo market winner)
unfolding resolve_market
resolve_market-PaysOut undo market winner =
    Quiet-PaysOut (payout winner) market _ _ (get_market_row-Quiet market) (λ m.
      Quiet-PaysOut (payout winner) market _ _ (raise_if-Quiet _ _) (λ _.
        Quiet-PaysOut (payout winner) market _ _ (list_outcomes-Quiet market) (λ os.
          Quiet-PaysOut (payout winner) market _ _ (raise_if-Quiet _ _) (λ _.
            level-PaysOut (payout winner) market _ _ (cancel_all-Shifts market) (λ _.
              with_tx-PaysOut (payout winner) market undo _ (
                Quiet-PaysOut (payout winner) market _ _ (set_winner-Quiet winner) (λ _.
                  Quiet-PaysOut (payout winner) market _ _ (update_market-Quiet _) (λ _.
                    pay_listed (payout winner) market (pay_winners winner)
                      (pay_winners-Shifts winner) (pay_winners-Still winner)))))))))

cancel_market-PaysOut :
    (undo : Db → Db → Db) (market : Ident) → PaysOut refunds market (cancel_market undo market)
unfolding cancel_market
cancel_market-PaysOut undo market =
    Quiet-PaysOut refunds market _ _ (get_market_row-Quiet market) (λ m.
      Quiet-PaysOut refunds market _ _ (raise_if-Quiet _ _) (λ _.
        level-PaysOut refunds market _ _ (cancel_all-Shifts market) (λ _.
          with_tx-PaysOut refunds market undo _ (
            Quiet-PaysOut refunds market _ _ (update_market-Quiet _) (λ _.
              pay_listed refunds market refund_holders refund_holders-Shifts
                refund_holders-Still)))))

-- ResolveMarket of the settlement service, when it succeeds, has raised the money of all users by
-- exactly a dollar for each token of the winning outcome in the positions of the market that have a
-- positive quantity, as they stand at the end. CancelMarket, when it succeeds, has raised it by
-- exactly quantity times average price, summed over the positions of the market at the end for
-- which the quantity and the product are positive.
pub settlement-Paid :
    (undo : Db → Db → Db) (market winner : Ident) (s : State)
    → Ensures (Paid (payout winner) market s) (resolve_market undo market winner s)
      × Ensures (Paid refunds market s) (cancel_market undo market s)
unfolding PaysOut
settlement-Paid undo market winner s =
    (resolve_market-PaysOut undo market winner s, cancel_market-PaysOut undo market s)
