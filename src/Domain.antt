-- ===== src/Domain.antt =====
-- pkg/domain and pkg/decimal: the data that the services share.
--
-- Identifiers are strings that the code only compares with one another and with the empty string,
-- so they are numbers here, and 0 is the empty string. The timestamps of the records are left out:
-- no modelled branch reads them. A decimal of shopspring/decimal is an exact number; a price, a
-- quantity and an amount of money are whole numbers of fixed units (10^-8 for the first two, as in
-- the columns of migrations/, 10^-16 for money), so that sums, differences, comparisons and the
-- product of a price and a quantity are exact, as they are there.
use truth_market.Base.{ℕ, Option, Bool, ◌&&◌}
use truth_market.Base.Int.{ℤ, pos, ◌*ℤ◌, ◌-ℤ◌, leb_ℤ}

abbrev pub Ident : Type 0
Ident = ℕ

-- The empty string.
abbrev pub no_id : Ident
no_id = 0

abbrev pub Price : Type 0
Price = ℤ

abbrev pub Quantity : Type 0
Quantity = ℤ

abbrev pub Money : Type 0
Money = ℤ

abbrev pub zero_dec : ℤ
zero_dec = pos 0

-- 1.00 as a price.
abbrev pub one_price : Price
one_price = pos 100_000_000

abbrev pub min_price : Price
min_price = pos 1_000_000

abbrev pub max_price : Price
max_price = pos 99_000_000

-- price.Mul(quantity)
abbrev pub cost_of : Price → Quantity → Money
cost_of p q = p *ℤ q

-- A quantity read as an amount of money: a dollar for each token.
abbrev pub money_of : Quantity → Money
money_of q = one_price *ℤ q

-- decimal.NewFromInt(1000) as money.
abbrev pub initial_balance : Money
initial_balance = pos 10_000_000_000_000_000_000

unfoldable pub validate_price : Price → Bool
validate_price price = leb_ℤ min_price price && leb_ℤ price max_price

pub data OrderSide : Type 0 where
  buy sell : OrderSide

pub data OrderStatus : Type 0 where
  open_order partially_filled filled cancelled : OrderStatus

pub record Order : Type 0 where
  pub id : Ident
  pub user_id : Ident
  pub market_id : Ident
  pub outcome_id : Ident
  pub side : OrderSide
  pub price : Price
  pub quantity : Quantity
  pub filled_qty : Quantity
  pub status : OrderStatus

pub record Trade : Type 0 where
  pub id : Ident
  pub market_id : Ident
  pub outcome_id : Ident
  pub maker_order_id : Ident
  pub taker_order_id : Ident
  pub maker_user_id : Ident
  pub taker_user_id : Ident
  pub price : Price
  pub quantity : Quantity

pub record Position : Type 0 where
  pub id : Ident
  pub user_id : Ident
  pub market_id : Ident
  pub outcome_id : Ident
  pub quantity : Quantity
  pub avg_price : Price

pub record MintTransaction : Type 0 where
  pub id : Ident
  pub user_id : Ident
  pub market_id : Ident
  pub quantity : Quantity
  pub cost : Money

pub data UserType : Type 0 where
  human agent : UserType

pub record User : Type 0 where
  pub id : Ident
  pub wallet_address : Ident
  pub user_type : UserType
  pub balance : Money
  pub locked_balance : Money
  pub is_admin : Bool

pub data MarketStatus : Type 0 where
  draft open_market closed resolved cancelled_market : MarketStatus

pub data MarketType : Type 0 where
  binary multi : MarketType

pub record Market : Type 0 where
  pub id : Ident
  pub title : Ident
  pub description : Ident
  pub category : Ident
  pub market_type : MarketType
  pub status : MarketStatus
  pub creator_id : Ident
  pub resolved_outcome_id : Option Ident

pub record Outcome : Type 0 where
  pub id : Ident
  pub market_id : Ident
  pub label : Ident
  pub index : ℕ
  pub is_winner : Bool

-- o.Quantity.Sub(o.FilledQty)
abbrev pub remaining_qty : Order → Quantity
remaining_qty o = o.quantity -ℤ o.filled_qty
