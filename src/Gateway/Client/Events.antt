-- ===== src/Gateway/Client/Events.antt =====
-- A client's subscription up to the delivery of an event: Client.handleMessage, ConnectEventBus and
-- the hub.
use truth_market.Gateway.Hub.{Hub}
