-- ===== src/Tests.antt =====
-- Small concrete runs of the modelled code, which show that the theorems' hypotheses can hold.
mod Runtime
mod Outbound
mod Inbound
mod Pallet
mod Relayers
mod Votes
mod Headers
mod Commitments
mod Protocol
mod Owner
mod Relay
mod Source
mod Race
mod Refund
