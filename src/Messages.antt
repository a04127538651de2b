-- ===== src/Messages.antt =====
-- The messages pallet (modules/messages) and its primitives (primitives/messages).
pub mod Types
pub mod Weights
pub mod Outbound
pub mod Inbound
pub mod Rewards
pub mod Pallet
pub mod Send
pub mod Receive
pub mod Confirm
pub mod Protocol
