-- ===== src/Lib.antt =====
-- A verification of the core of the bridges: the pallets that follow the finality of another chain,
-- the pallets that pass messages between two chains and reward the relayers, and the decisions of the
-- process that relays the messages.
--
-- How the parts interact. A relayer submits justified headers of the bridged chain to the GRANDPA
-- pallet, which keeps the latest ones in a ring buffer; the parachains pallet reads parachain heads
-- out of proofs at these headers. The messages pallet of the source chain stores the messages of a
-- lane, the one of the target chain dispatches them in the order of their nonces and remembers who
-- delivered them, and a proof of that lets the source chain confirm the messages, reward the relayers
-- over the relayers pallet and prune. A signed extension of the runtimes refunds the transactions that
-- have moved the bridge on. The relayer runs a race for the messages of a lane and one for
-- their confirmations: its loop asks the source for new nonces and the target for the nonces that it
-- has, its strategy selects what to deliver, and what it selects should be what the target's lane takes.
--
-- The files.
--   Common and its children: native numbers with their tests, lists, results, u32 and u64 words, maps,
--     ring buffers.
--   Runtime, with Owner: `OwnedBridgeModule` of primitives/runtime/src/lib.rs.
--   Messages.Types: primitives/messages/src/lib.rs and target_chain.rs.
--   Messages.Outbound, Messages.Inbound: modules/messages/src/outbound_lane.rs and inbound_lane.rs.
--   Messages.Rewards: `calc_relayers_rewards` of primitives/messages/src/lib.rs.
--   Messages.Pallet, Send, Receive, Confirm: the storage, `send_message` and `on_idle`,
--     `receive_messages_proof` and `receive_messages_delivery_proof` of modules/messages/src/lib.rs.
--   Messages.Protocol: the two ends of a lane together, as a step relation over the operations of
--     Messages.Outbound and Messages.Inbound.
--   Relayers: modules/relayers/src/lib.rs and payment_adapter.rs.
--   Justification, with Ancestry and Verify: primitives/header-chain/src/justification.rs.
--   Grandpa, with CallExt and Pallet: modules/grandpa/src/lib.rs, call_ext.rs and storage_types.rs.
--   Beefy, with Utils and Pallet: modules/beefy/src/lib.rs and utils.rs.
--   Parachains, with Submit: modules/parachains/src/lib.rs and call_ext.rs.
--   RuntimeCommon, with CallExt and Refund: bin/runtime-common/src/messages_call_ext.rs and
--     refund_relayer_extension.rs, over the states of all pallets.
--   Relay.Race, Ranges, Strategy, Limits, Delivery: the state of a race, the ranges of nonces,
--     `BasicStrategy`, `MessageRaceLimits::decide` and `MessageDeliveryStrategy` of
--     relays/messages/src/message_race_loop.rs, message_race_receiving.rs, message_race_strategy.rs,
--     message_race_limits.rs and message_race_delivery.rs.
--   Relay.Target, Source: what the relayer reads of the target's lane, and its checks of what the
--     source returns (relays/lib-substrate-relay/src/messages_target.rs and messages_source.rs).
--   Relay.Loop: `run` of relays/messages/src/message_race_loop.rs; its futures are fields of the state,
--     and one round is a function on the event that completes one of them.
--   The children of these modules hold the proofs, and Tests the concrete runs.
--
-- State and errors. A pallet's storage is a record; a call is a function from it to a result with the
-- new state, so a call that fails leaves the storage as it was, as FRAME's transactional calls do.
-- The runtime's plug-ins (weights, dispatch, payment, verifiers of proofs, hashes, signatures) are
-- fields of a configuration that the definitions take. Nonces and counters wrap at 2 ^ 64 or 2 ^ 32
-- where the code's types do; the theorems say where there must be room. A panic is a result of its
-- own in the verification of justifications and in `on_idle`; `HeadersToKeep`, `HeadsToKeep` and
-- `CommitmentsToKeep` of zero, which would make an import panic, are outside of the model. In the
-- relayer, an index out of the range of the queue gives no selection, where the code would panic;
-- the theorem on the available indices says that they are in range. A failed `expect` of the loop
-- is an outcome of its own.
--
-- Loops. The pruning loop runs on as many rounds as there are nonces to prune, and the walk over the
-- ancestry of a justification on one round more than there are unvisited headers; these are
-- enough. The split of messages into batches runs on as many rounds as there are
-- messages, as each round takes at least one of them off. The other loops follow a list.
--
-- Not modelled: logging, metadata, storage keys, codecs, benchmarks and generated weights; the trie
-- proofs behind the checker of storage proofs; the shift session manager; the runtimes, their XCM and
-- their storage proofs; the loops that relay headers and parachain heads; and of the message relayer
-- the delays, metrics and calls of the clients, whose results are the loop's events.
pub mod Common
pub mod Runtime
pub mod Messages
pub mod Relayers
pub mod Justification
pub mod Grandpa
pub mod Beefy
pub mod Parachains
pub mod RuntimeCommon
pub mod Relay
pub mod Tests
