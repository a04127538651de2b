-- ===== src/Relay/Strategy/Available.antt =====
-- Which entries of the queue may be delivered (relays/messages/src/message_race_strategy.rs).
use native.Mathlib.Nat.{zero-add}
use parity_bridges_common.Common.{
  ℕ, zero, suc, ◌+◌, ◌-◌, ◌≤◌, ◌<◌, ◌≡◌, refl, sym, subst, ◌∙◌, inl, inr, none, some, List, [], ◌∷◌,
  drop, get_elem?, arith, leb, leb→le, leb→lt, is_some, same_some, Bool-cases, Option-cases,
  some_is_not_none, if◌then◌else◌,
}
use parity_bridges_common.Common.Options.{◌>>=◌, >>=-eq-some}
use parity_bridges_common.Messages.Types.{MessageNonce}
use parity_bridges_common.Relay.Race.{HeaderId, NoncesRange, RaceState, nonces_to_submit}
use parity_bridges_common.Relay.Strategy.{
  SourceRangesQueue, BasicStrategy, first_undelivered, last_finalized, indices_from,
  available_source_queue_indices,
}

suc_add : (n i : ℕ) → suc n + i ≡ suc (n + i)
suc_add n i = omega arith

get_elem?-drop :
    {A : Type 0} (n i : ℕ) (xs : List A) → get_elem? (drop n xs) i ≡ get_elem? xs (n + i)
get_elem?-drop zero i xs = rw (zero-add i) refl
get_elem?-drop (suc n) i [] = refl
get_elem?-drop (suc n) i (x ∷ xs) = get_elem?-drop n i xs ∙ rw (suc_add n i) refl

module _ {R : Type 0} ⦃r : NoncesRange R⦄ where
  record IsFirst (best : MessageNonce) (queue : SourceRangesQueue R) (i : ℕ) : Type 0 where
    entry : HeaderId × R
    found : get_elem? queue i ≡ some entry
    fresh : best < r.end entry.1
    before :
        (j : ℕ) (old : HeaderId × R) → j < i → get_elem? queue j ≡ some old → r.end old.1 ≤ best

  delivered_before :
      (best : MessageNonce) (entry : HeaderId × R) (queue : SourceRangesQueue R) (i : ℕ)
      → r.end entry.1 ≤ best
      → ((j : ℕ) (old : HeaderId × R) → j < i → get_elem? queue j ≡ some old → r.end old.1 ≤ best)
      → (j : ℕ) (old : HeaderId × R) → j < suc i
      → get_elem? (entry ∷ queue) j ≡ some old
      → r.end old.1 ≤ best
  delivered_before best entry queue i first rest zero old lt h = rw (← same_some refl h) first
  delivered_before best entry queue i first rest (suc j) old lt h = rest j old (omega arith) h

  first_undelivered-IsFirst :
      (best : MessageNonce) (index i : ℕ) (queue : SourceRangesQueue R)
      → first_undelivered best index queue ≡ some i
      → (index ≤ i) × IsFirst best queue (i - index)
  unfolding first_undelivered
  first_undelivered-IsFirst best index i [] e = cc
  first_undelivered-IsFirst best index i ((at, nonces) ∷ queue) e =
      elim (Bool-cases (leb (r.end nonces) best)) [
        | inr fresh ↦
            let here : index ≡ i = same_some refl (rw fresh at e) in
            let zero_at : i - index ≡ 0 = omega arith in
            (
              omega arith,
              rw zero_at (record {
                entry = (at, nonces);
                found = refl;
                fresh = leb→lt _ _ fresh;
                before = λ j old lt h. absurd (omega arith);
              }),
            )
        | inl old ↦
            let (le, f) = first_undelivered-IsFirst best (index + 1) i queue (rw old at e) in
            let shift : i - index ≡ suc (i - (index + 1)) = omega arith in
            (
              omega arith,
              rw shift (record {
                entry = f.entry;
                found = f.found;
                fresh = f.fresh;
                before =
                    delivered_before best (at, nonces) queue (i - (index + 1)) (leb→le _ _ old)
                      f.before;
              }),
            )
      ]

  record IsLast (best : HeaderId) (queue : SourceRangesQueue R) (i : ℕ) : Type 0 where
    within :
        (j : ℕ)
        → j ≤ i
        → (entry : HeaderId × R) × (get_elem? queue j ≡ some entry) × (entry.0.number ≤ best.number)
    beyond :
        (next : HeaderId × R) → get_elem? queue (suc i) ≡ some next → best.number < next.0.number

  finalized_within :
      (best : HeaderId) (entry : HeaderId × R) (queue : SourceRangesQueue R) (i : ℕ)
      → entry.0.number ≤ best.number
      → IsLast best queue i
      → (j : ℕ) → j ≤ suc i
      → (e : HeaderId × R) × (get_elem? (entry ∷ queue) j ≡ some e) × (e.0.number ≤ best.number)
  finalized_within best entry queue i le l zero h = (entry, refl, le)
  finalized_within best entry queue i le l (suc j) h = l.within j (omega arith)

  finalized_only :
      (best : HeaderId) (entry : HeaderId × R) (queue : SourceRangesQueue R)
      → entry.0.number ≤ best.number
      → (j : ℕ) → j ≤ 0
      → (e : HeaderId × R) × (get_elem? (entry ∷ queue) j ≡ some e) × (e.0.number ≤ best.number)
  finalized_only best entry queue le zero h = (entry, refl, le)
  finalized_only best entry queue le (suc j) h = absurd (omega arith)

  first_beyond :
      (best : HeaderId) (index : ℕ) (next : HeaderId × R) (queue : SourceRangesQueue R)
      → last_finalized best index queue ≡ none
      → get_elem? queue 0 ≡ some next
      → best.number < next.0.number
  unfolding last_finalized
  first_beyond best index next [] e h = cc
  first_beyond best index next ((at, nonces) ∷ queue) e h =
      elim (Bool-cases (leb at.number best.number)) [
        | inl known ↦ let more = rw known at e in some_is_not_none refl more
        | inr late ↦ rw (← same_some refl h) (leb→lt _ _ late)
      ]

  last_finalized-IsLast :
      (best : HeaderId) (index i : ℕ) (queue : SourceRangesQueue R)
      → last_finalized best index queue ≡ some i
      → (index ≤ i) × IsLast best queue (i - index)
  unfolding last_finalized
  last_finalized-IsLast best index i [] e = cc
  last_finalized-IsLast best index i ((at, nonces) ∷ queue) e =
      elim (Bool-cases (leb at.number best.number)) [
        | inr late ↦ let stops = rw late at e in cc
        | inl known ↦ elim (Option-cases (last_finalized best (index + 1) queue)) [
          | inl e' ↦
              let here : index ≡ i = same_some refl (rw (known, e') at e) in
              let zero_at : i - index ≡ 0 = omega arith in
              (
                omega arith,
                rw zero_at (record {
                  within = finalized_only best (at, nonces) queue (leb→le _ _ known);
                  beyond = λ next h. first_beyond best (index + 1) next queue e' h;
                }),
              )
          | inr (last, e') ↦
              let here : last ≡ i = same_some refl (rw (known, e') at e) in
              let (le, l) = last_finalized-IsLast best (index + 1) i queue (rw here at e') in
              let shift : i - index ≡ suc (i - (index + 1)) = omega arith in
              (
                omega arith,
                rw shift (record {
                  within =
                      finalized_within best (at, nonces) queue (i - (index + 1)) (leb→le _ _ known)
                        l;
                  beyond = l.beyond;
                }),
              )
        ]
      ]

  module _ {Proof BatchTx : Type 0} (s : BasicStrategy R) (race : RaceState Proof BatchTx) where
    -- From the first entry with a nonce that the target does not have to the last one up to which
    -- all headers are known to the target.
    pub record IsAvailable (indices : ℕ × ℕ) : Type 0 where
      pub best : MessageNonce
      pub header : HeaderId
      pub best_known : s.best_target_nonce ≡ some best
      pub header_known : race.best_finalized_source_header_id_at_best_target ≡ some header
      pub idle : nonces_to_submit race ≡ none
      pub settled : race.nonces_submitted ≡ none
      pub in_order : indices.0 ≤ indices.1
      pub first : HeaderId × R
      pub found : get_elem? s.source_queue indices.0 ≡ some first
      pub fresh : best < r.end first.1
      pub delivered :
          (j : ℕ) (old : HeaderId × R)
          → j < indices.0
          → get_elem? s.source_queue j ≡ some old
          → r.end old.1 ≤ best
      pub finalized :
          (j : ℕ)
          → indices.0 ≤ j
          → j ≤ indices.1
          → (entry : HeaderId × R) × (get_elem? s.source_queue j ≡ some entry)
            × (entry.0.number ≤ header.number)
      pub beyond :
          (next : HeaderId × R)
          → get_elem? s.source_queue (suc indices.1) ≡ some next
          → header.number < next.0.number

    indices_from-IsAvailable :
        (best : MessageNonce) (indices : ℕ × ℕ)
        → s.best_target_nonce ≡ some best
        → nonces_to_submit race ≡ none
        → race.nonces_submitted ≡ none
        → indices_from s.source_queue race best ≡ some indices
        → IsAvailable indices
    unfolding indices_from
    indices_from-IsAvailable best indices best_known idle settled e =
        let queue = s.source_queue in
        let with_header = λ (b : ℕ) (header : HeaderId).
          last_finalized header b (drop b queue) >>= λ (l : ℕ). some (b, l) in
        let with_begin =
          λ (b : ℕ). race.best_finalized_source_header_id_at_best_target >>= with_header b in
        let (b, begins, e₁) = >>=-eq-some (first_undelivered best 0 queue) with_begin e in
        let (header, header_known, e₂) =
          >>=-eq-some race.best_finalized_source_header_id_at_best_target (with_header b) e₁ in
        let (l, ends, e₃) =
          >>=-eq-some (last_finalized header b (drop b queue)) (λ (l : ℕ). some (b, l)) e₂ in
        let both : (b, l) ≡ indices = same_some refl e₃ in
        let same : b - 0 ≡ b = omega arith in
        let first =
          subst (IsFirst best queue) same (first_undelivered-IsFirst best 0 b queue begins).1 in
        let (le, last) = last_finalized-IsLast header b l (drop b queue) ends in
        subst IsAvailable both (record {
          best = best;
          header = header;
          best_known = best_known;
          header_known = header_known;
          idle = idle;
          settled = settled;
          in_order = le;
          first = first.entry;
          found = first.found;
          fresh = first.fresh;
          delivered = first.before;
          finalized = λ j from to.
              let (entry, at, known) = last.within (j - b) (omega arith) in
              let back : b + (j - b) ≡ j = omega arith in
              (entry, rw back at (sym (get_elem?-drop b (j - b) queue) ∙ at), known);
          beyond = λ next at.
              let back : b + suc (l - b) ≡ suc l = omega arith in
              last.beyond next (get_elem?-drop b (suc (l - b)) queue ∙ rw back at);
        })

    -- Indices are only returned while nothing is selected or submitted. They are those of entries
    -- of the queue, the first of them with a nonce above the best one of the target and all
    -- before it without one, all of them seen at source headers up to the best one that the
    -- target knows, and the entry behind them not.
    pub available_source_queue_indices-IsAvailable :
        (indices : ℕ × ℕ)
        → available_source_queue_indices s race ≡ some indices
        → IsAvailable indices
    unfolding available_source_queue_indices
    available_source_queue_indices-IsAvailable indices e =
        let from = λ (best : MessageNonce).
          if is_some (nonces_to_submit race)
          then none
          else if is_some race.nonces_submitted
          then none
          else indices_from s.source_queue race best in
        let (best, best_known, e₁) = >>=-eq-some s.best_target_nonce from e in
        elim (Option-cases (nonces_to_submit race)) [
          | inr (range, busy) ↦ let stops = rw busy at e₁ in cc
          | inl idle ↦ elim (Option-cases race.nonces_submitted) [
            | inr (range, waits) ↦ let stops = rw (idle, waits) at e₁ in cc
            | inl settled ↦
                indices_from-IsAvailable best indices best_known idle settled
                  (rw (idle, settled) at e₁)
          ]
        ]
