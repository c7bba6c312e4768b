-- ===== src/Trading.antt =====
-- services/trading-svc/internal/service: order.go and mint.go. The identifiers that uuid.New() draws
-- and the quotient of a decimal division are arguments of the definitions.
pub mod Orders
pub mod Cancels
pub mod Mint
pub mod Funds
pub mod Guarantees
pub mod Level
pub mod Tests
