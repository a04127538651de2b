-- ===== src/Relay/Loop/Sound.antt =====
-- What holds in every round of the loop of a race (relays/messages/src/message_race_loop.rs).
use parity_bridges_common.Common.{
  ℕ, ◌+◌, ◌≤◌, ◌≡◌, refl, sym, subst, ◌∙◌, ◌⊎◌, inl, inr, Bool, true, false, Option, none, some,
  arith, is_some, Option-cases,
}
use parity_bridges_common.Common.Options.{◌>>=◌, >>=-eq-some}
use parity_bridges_common.Relay.Race.{
  HeaderId, RangeInclusive, SourceClientNonces, TargetClientNonces, RaceState,
}
use parity_bridges_common.Relay.Loop.{
  RaceStrategy, ClientState, FailedClient, source_failed, target_failed, Reply, success, failed,
  connection_failed, TransactionStatus, lost, finalized, Event, race_source_updated,
  race_target_updated, source_nonces_received, target_best_nonces_received,
  target_finalized_nonces_received, source_header_required, proof_generated, proof_submitted,
  transaction_tracked, source_back_online, target_back_online, Loop, Outcome, running, stopped,
  panicked, and_then, initial, handle, proceed_source, proceed_target, round, source_updated,
  target_best_updated, target_finalized_updated, on_source_nonces, on_best_nonces,
  on_finalized_nonces, on_header_required, on_proof, on_submitted, still_submitted, select_nonces,
  expected_race_state, ask_for_header,
}

abbrev pub count : Bool → ℕ
count true = 1
count false = 0

-- The headers stay, and what is submitted or to be submitted stays or is forgotten.
pub record Resets {Proof BatchTx : Type 0} (race after : RaceState Proof BatchTx) : Type 0 where
  pub at_source :
      after.best_finalized_source_header_id_at_source
      ≡ race.best_finalized_source_header_id_at_source
  pub best_target : after.best_target_header_id ≡ race.best_target_header_id
  pub finalized_target :
      after.best_finalized_target_header_id ≡ race.best_finalized_target_header_id
  pub selected : (after.to_submit ≡ none) ⊎ (after.to_submit ≡ race.to_submit)
  pub submitted : (after.nonces_submitted ≡ none) ⊎ (after.nonces_submitted ≡ race.nonces_submitted)

-- What the loop needs of a strategy.
pub record StrategyLaws {S R T Params Proof BatchTx : Type 0}
    (strat : RaceStrategy S R T Params Proof BatchTx) : Type 0 where
  pub best_resets :
      (s : S) (nonces : TargetClientNonces T) (race : RaceState Proof BatchTx)
      → Resets race (strat.best_target_nonces_updated s nonces race).1
  pub finalized_resets :
      (s : S) (nonces : TargetClientNonces T) (race : RaceState Proof BatchTx)
      → Resets race (strat.finalized_target_nonces_updated s nonces race).1
  pub selects_idle :
      (s : S) (race : RaceState Proof BatchTx) (selected : RangeInclusive × Params)
      → strat.select_nonces_to_deliver s race ≡ some selected
      → (race.to_submit ≡ none) × (race.nonces_submitted ≡ none)

abbrev pub lost_connection : {A : Type 0} → FailedClient → Reply A → Option FailedClient
lost_connection client (success a) = none
lost_connection client failed = none
lost_connection client connection_failed = some client

abbrev pub any_failure : {A : Type 0} → FailedClient → Reply A → Option FailedClient
any_failure client (success a) = none
any_failure client failed = some client
any_failure client connection_failed = some client

module _ {S R T Params Proof BatchTx : Type 0} (strat : RaceStrategy S R T Params Proof BatchTx)
    (required_header_id : BatchTx → HeaderId) (laws : StrategyLaws strat) where
  -- Each client has one request or one delay pending, or is online. At most one batch of nonces is
  -- being proved, to be submitted or submitted. Nonces are only asked for at a header that is known.
  pub record IsSound (s : Loop S Params Proof BatchTx) : Type 0 where
    pub one_at_source :
        count s.source_client_is_online
          + count (is_some s.source_nonces)
          + count (is_some s.source_generate_proof)
          + count s.source_go_offline
        ≡ 1
    pub one_at_target :
        count s.target_client_is_online
          + count (is_some s.target_require_source_header)
          + count (is_some s.target_best_nonces)
          + count (is_some s.target_finalized_nonces)
          + count (is_some s.target_submit_proof)
          + count s.target_go_offline
        ≡ 1
    pub one_batch :
        count (is_some s.source_generate_proof)
          + count (is_some s.race_state.to_submit)
          + count (is_some s.race_state.nonces_submitted)
        ≤ 1
    pub submitting : count (is_some s.target_submit_proof) ≤ count (is_some s.race_state.to_submit)
    pub source_known :
        count s.source_nonces_required
        ≤ count (is_some s.race_state.best_finalized_source_header_id_at_source)
    pub best_known :
        count s.target_best_nonces_required ≤ count (is_some s.race_state.best_target_header_id)
    pub finalized_known :
        count s.target_finalized_nonces_required
        ≤ count (is_some s.race_state.best_finalized_target_header_id)

  -- The future that the event completes is pending.
  abbrev pub IsPending : Loop S Params Proof BatchTx → Event R T Proof BatchTx → Type 0
  IsPending s (race_source_updated state) = Unit
  IsPending s (race_target_updated state) = Unit
  IsPending s (source_nonces_received reply) = is_some s.source_nonces ≡ true
  IsPending s (target_best_nonces_received reply) = is_some s.target_best_nonces ≡ true
  IsPending s (target_finalized_nonces_received reply) = is_some s.target_finalized_nonces ≡ true
  IsPending s (source_header_required reply) = is_some s.target_require_source_header ≡ true
  IsPending s (proof_generated reply) = is_some s.source_generate_proof ≡ true
  IsPending s (proof_submitted reply) = is_some s.target_submit_proof ≡ true
  IsPending s (transaction_tracked status) = s.target_tx_tracker ≡ true
  IsPending s source_back_online = s.source_go_offline ≡ true
  IsPending s target_back_online = s.target_go_offline ≡ true

  -- The client whose failure the event reports, where the loop cannot go on after it: a connection
  -- that is lost, or a proof that could not be generated or submitted.
  abbrev pub failed_client : Event R T Proof BatchTx → Option FailedClient
  failed_client (race_source_updated state) = none
  failed_client (race_target_updated state) = none
  failed_client (source_nonces_received reply) = lost_connection source_failed reply
  failed_client (target_best_nonces_received reply) = lost_connection target_failed reply
  failed_client (target_finalized_nonces_received reply) = lost_connection target_failed reply
  failed_client (source_header_required reply) = lost_connection target_failed reply
  failed_client (proof_generated reply) = any_failure source_failed reply
  failed_client (proof_submitted reply) = any_failure target_failed reply
  failed_client (transaction_tracked status) = none
  failed_client source_back_online = none
  failed_client target_back_online = none

  -- The loop goes on soundly, or it returns the client that the event reports as failed; it does not
  -- panic.
  abbrev pub Goes : Event R T Proof BatchTx → Outcome (Loop S Params Proof BatchTx) → Type 0
  Goes event (running s) = IsSound s × (failed_client event ≡ none)
  Goes event (stopped client) = failed_client event ≡ some client
  Goes event panicked = ⊥

  -- What follows on the event goes on in any case.
  abbrev Proceeds : Outcome (Loop S Params Proof BatchTx) → Type 0
  Proceeds (running s) = IsSound s
  Proceeds (stopped client) = ⊥
  Proceeds panicked = ⊥

  Proceeds-Goes :
      (event : Event R T Proof BatchTx) (o : Outcome (Loop S Params Proof BatchTx))
      → failed_client event ≡ none
      → Proceeds o
      → Goes event o
  Proceeds-Goes event (running s) fine g = (g, fine)
  Proceeds-Goes event (stopped client) fine g = absurd g
  Proceeds-Goes event panicked fine g = absurd g

  and_then-Goes :
      (event : Event R T Proof BatchTx) (o : Outcome (Loop S Params Proof BatchTx))
      (next : Loop S Params Proof BatchTx → Outcome (Loop S Params Proof BatchTx))
      → Goes event o
      → ((s : Loop S Params Proof BatchTx) → IsSound s → Proceeds (next s))
      → Goes event (and_then o next)
  and_then-Goes event (running s) next (v, fine) h = Proceeds-Goes event (next s) fine (h s v)
  and_then-Goes event (stopped client) next g h = g
  and_then-Goes event panicked next g h = absurd g

  source_updated-IsSound :
      (s : Loop S Params Proof BatchTx) (state : ClientState)
      → IsSound s
      → IsSound (source_updated strat required_header_id s state)
  unfolding source_updated
  source_updated-IsSound s state v = ground arith

  target_best_updated-IsSound :
      (s : Loop S Params Proof BatchTx) (state : ClientState)
      → IsSound s
      → IsSound (target_best_updated strat required_header_id s state)
  unfolding target_best_updated
  target_best_updated-IsSound s state v = ground arith

  target_finalized_updated-IsSound :
      (s : Loop S Params Proof BatchTx) (state : ClientState)
      → IsSound s
      → IsSound (target_finalized_updated strat required_header_id s state)
  unfolding target_finalized_updated
  target_finalized_updated-IsSound s state v = ground arith

  on_source_nonces-Goes :
      (s : Loop S Params Proof BatchTx) (reply : Reply (HeaderId × SourceClientNonces R))
      → IsSound s
      → is_some s.source_nonces ≡ true
      → Goes
          (source_nonces_received reply)
          (handle strat required_header_id s (source_nonces_received reply))
  unfolding handle on_source_nonces ask_for_header
  on_source_nonces-Goes s (success (at, nonces)) v p = (ground arith, refl)
  on_source_nonces-Goes s failed v p = (ground arith, refl)
  on_source_nonces-Goes s connection_failed v p = refl

  on_best_nonces-Goes :
      (s : Loop S Params Proof BatchTx) (reply : Reply (TargetClientNonces T))
      → IsSound s
      → is_some s.target_best_nonces ≡ true
      → Goes
          (target_best_nonces_received reply)
          (handle strat required_header_id s (target_best_nonces_received reply))
  unfolding handle on_best_nonces
  on_best_nonces-Goes s (success nonces) v p =
      (ground (arith, laws.best_resets s.strategy nonces s.race_state), refl)
  on_best_nonces-Goes s failed v p = (ground arith, refl)
  on_best_nonces-Goes s connection_failed v p = refl

  on_finalized_nonces-Goes :
      (s : Loop S Params Proof BatchTx) (reply : Reply (TargetClientNonces T))
      → IsSound s
      → is_some s.target_finalized_nonces ≡ true
      → Goes
          (target_finalized_nonces_received reply)
          (handle strat required_header_id s (target_finalized_nonces_received reply))
  unfolding handle on_finalized_nonces
  on_finalized_nonces-Goes s (success nonces) v p =
      (ground (arith, laws.finalized_resets s.strategy nonces s.race_state), refl)
  on_finalized_nonces-Goes s failed v p = (ground arith, refl)
  on_finalized_nonces-Goes s connection_failed v p = refl

  on_header_required-Goes :
      (s : Loop S Params Proof BatchTx) (reply : Reply (Option BatchTx))
      → IsSound s
      → is_some s.target_require_source_header ≡ true
      → Goes
          (source_header_required reply)
          (handle strat required_header_id s (source_header_required reply))
  unfolding handle on_header_required
  on_header_required-Goes s (success batch) v p = (ground arith, refl)
  on_header_required-Goes s failed v p = (ground arith, refl)
  on_header_required-Goes s connection_failed v p = refl

  on_proof-Goes :
      (s : Loop S Params Proof BatchTx) (reply : Reply (HeaderId × RangeInclusive × Proof))
      → IsSound s
      → is_some s.source_generate_proof ≡ true
      → Goes (proof_generated reply) (handle strat required_header_id s (proof_generated reply))
  unfolding handle on_proof
  on_proof-Goes s (success proof) v p = (ground arith, refl)
  on_proof-Goes s failed v p = refl
  on_proof-Goes s connection_failed v p = refl

  on_submitted-Goes :
      (s : Loop S Params Proof BatchTx) (reply : Reply RangeInclusive)
      → IsSound s
      → is_some s.target_submit_proof ≡ true
      → Goes (proof_submitted reply) (handle strat required_header_id s (proof_submitted reply))
  unfolding handle on_submitted
  on_submitted-Goes s (success nonces) v p = (ground arith, refl)
  on_submitted-Goes s failed v p = refl
  on_submitted-Goes s connection_failed v p = refl

  still_submitted-Resets :
      (status : TransactionStatus T) (race : RaceState Proof BatchTx)
      → Resets race (still_submitted strat required_header_id status race)
  unfolding still_submitted
  still_submitted-Resets lost race = ground arith
  still_submitted-Resets (finalized at_target) race = ground arith

  on_tracked-Goes :
      (s : Loop S Params Proof BatchTx) (status : TransactionStatus T)
      → IsSound s
      → Goes
          (transaction_tracked status)
          (handle strat required_header_id s (transaction_tracked status))
  unfolding handle
  on_tracked-Goes s status v = (ground (arith, still_submitted-Resets status s.race_state), refl)

  handle-Goes :
      (s : Loop S Params Proof BatchTx) (event : Event R T Proof BatchTx)
      → IsSound s
      → IsPending s event
      → Goes event (handle strat required_header_id s event)
  unfolding handle
  handle-Goes s (race_source_updated none) v p = (v, refl)
  handle-Goes s (race_source_updated (some state)) v p = (source_updated-IsSound s state v, refl)
  handle-Goes s (race_target_updated none) v p = (v, refl)
  handle-Goes s (race_target_updated (some state)) v p =
      (target_finalized_updated-IsSound _ state (target_best_updated-IsSound s state v), refl)
  handle-Goes s (source_nonces_received reply) v p = on_source_nonces-Goes s reply v p
  handle-Goes s (target_best_nonces_received reply) v p = on_best_nonces-Goes s reply v p
  handle-Goes s (target_finalized_nonces_received reply) v p = on_finalized_nonces-Goes s reply v p
  handle-Goes s (source_header_required reply) v p = on_header_required-Goes s reply v p
  handle-Goes s (proof_generated reply) v p = on_proof-Goes s reply v p
  handle-Goes s (proof_submitted reply) v p = on_submitted-Goes s reply v p
  handle-Goes s (transaction_tracked status) v p = on_tracked-Goes s status v
  handle-Goes s source_back_online v p = (ground arith, refl)
  handle-Goes s target_back_online v p = (ground arith, refl)

  expected-same :
      (race : RaceState Proof BatchTx) (batch : Option BatchTx)
      → let expected = expected_race_state strat required_header_id race batch in
        (expected.to_submit ≡ race.to_submit) × (expected.nonces_submitted ≡ race.nonces_submitted)
  unfolding expected_race_state
  expected-same race none = (refl, refl)
  expected-same race (some batch) = (refl, refl)

  select_nonces-idle :
      (race : RaceState Proof BatchTx) (batch : Option BatchTx) (s : S)
      (selected : HeaderId × RangeInclusive × Params)
      → select_nonces strat required_header_id
          (expected_race_state strat required_header_id race batch)
          s
        ≡ some selected
      → (race.to_submit ≡ none) × (race.nonces_submitted ≡ none)
  unfolding select_nonces
  select_nonces-idle race batch s selected e =
      let expected = expected_race_state strat required_header_id race batch in
      let (to_submit, submitted) = expected-same race batch in
      let with_best = λ (best : HeaderId).
        strat.select_nonces_to_deliver s expected >>= λ (sel : RangeInclusive × Params).
        some (best, sel.0, sel.1) in
      let (best, _, e₁) =
        >>=-eq-some expected.best_finalized_source_header_id_at_best_target with_best e in
      let (sel, selects, _) =
        >>=-eq-some (strat.select_nonces_to_deliver s expected)
          (λ (sel : RangeInclusive × Params). some (best, sel.0, sel.1)) e₁ in
      let (idle, settled) = laws.selects_idle s expected sel selects in
      (sym to_submit ∙ idle, sym submitted ∙ settled)

  proceed_source-Goes :
      (s : Loop S Params Proof BatchTx)
      → IsSound s
      → Proceeds (proceed_source strat required_header_id s)
  unfolding proceed_source
  proceed_source-Goes s v =
      elim (Option-cases (
        select_nonces strat required_header_id
          (expected_race_state strat required_header_id s.race_state s.target_batch_transaction)
          s.strategy)) [
            | inr (selected, e) ↦ ground (
              arith,
              select_nonces-idle s.race_state s.target_batch_transaction s.strategy selected e,
            )
            | inl e ↦ ground arith
          ]

  proceed_target-Goes :
      (s : Loop S Params Proof BatchTx)
      → IsSound s
      → Proceeds (proceed_target strat required_header_id s)
  unfolding proceed_target
  proceed_target-Goes s v = ground arith

  -- With such a strategy, a round of the loop from a sound state on a pending event returns the
  -- client that lost its connection or failed to generate or to submit a proof, if the event
  -- reports one, and goes on soundly if not; none of its `expect`s panics.
  pub round-Goes :
      (s : Loop S Params Proof BatchTx) (event : Event R T Proof BatchTx)
      → IsSound s
      → IsPending s event
      → Goes event (round strat required_header_id s event)
  unfolding round
  round-Goes s event v p =
      and_then-Goes event
        (and_then (handle strat required_header_id s event)
          (proceed_source strat required_header_id))
        (proceed_target strat required_header_id)
        (and_then-Goes event (handle strat required_header_id s event)
          (proceed_source strat required_header_id) (handle-Goes s event v p) proceed_source-Goes)
        proceed_target-Goes

  -- The rounds of a race, each on an event that is pending.
  pub data Run (first : S) : Loop S Params Proof BatchTx → Type 0 where
    start : Run first (initial strat required_header_id first)
    next :
        {s after : Loop S Params Proof BatchTx}
        → Run first s
        → (event : Event R T Proof BatchTx) → IsPending s event
        → round strat required_header_id s event ≡ running after
        → Run first after

  initial-IsSound : (first : S) → IsSound (initial strat required_header_id first)
  initial-IsSound first = record {
    one_at_source = refl;
    one_at_target = refl;
    one_batch = omega arith;
    submitting = omega arith;
    source_known = omega arith;
    best_known = omega arith;
    finalized_known = omega arith;
  }

  -- In any run of a race on events that are pending, with a strategy that selects nothing while
  -- something is selected or submitted and whose updates of the race's state only forget what
  -- was, each client has exactly one request or delay pending or is online, at most one batch of
  -- nonces is being proved, to be submitted or submitted, a submission is of nonces that are
  -- still selected, and nonces are only required where the header to ask at is known.
  pub Run-IsSound : (first : S) (s : Loop S Params Proof BatchTx) → Run first s → IsSound s
  Run-IsSound first s start = initial-IsSound first
  Run-IsSound first s (next {s = before} run event p e) =
      (subst (Goes event) e (round-Goes before event (Run-IsSound first before run) p)).0
