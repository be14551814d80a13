-- ===== src/Relay.antt =====
-- internal/relay/relay.go: packets that go through the server, and the connection of a client that
-- sends and receives them.
pub mod Packets
pub mod Conn
pub mod RoundTrips
pub mod Examples
