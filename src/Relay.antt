-- ===== src/Relay.antt =====
-- The relayer of messages, relays/messages and what it uses of relays/lib-substrate-relay: which
-- nonces it offers to the other chain, and when.
pub mod Race
pub mod Ranges
pub mod Strategy
pub mod Limits
pub mod Delivery
pub mod Target
pub mod Source
pub mod Loop
