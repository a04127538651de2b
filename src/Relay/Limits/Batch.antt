-- ===== src/Relay/Limits/Batch.antt =====
-- Which messages `decide` takes (relays/messages/src/message_race_limits.rs).
use parity_bridges_common.Common.{
  ℕ, ◌+◌, ◌≤◌, ◌<◌, ◌≡◌, refl, sym, ap, ◌∙◌, ◌⊎◌, inl, inr, true, ◌&&◌, Option, none, some, [], ◌∷◌,
  ◌++◌, All, append_assoc, length, length-append, max, u32_mod, u64_mod, arith, leb, ltb, ◌==◌,
  add_u64, sub_u64, if◌then◌else◌, get_elem?, same_some, Bool-cases, Option-cases,
}
use parity_bridges_common.Common.Options.{◌>>=◌}
use parity_bridges_common.Messages.Types.{MessageNonce}
use parity_bridges_common.Relay.Race.{HeaderId}
use parity_bridges_common.Relay.Ranges.{MessageDetails, MessageDetailsMap, details_maps}
use parity_bridges_common.Relay.Limits.{
  BatchWeights, BatchReference, Selection, select_one, select_loop, ready_from, empty_selection,
  decide,
}

-- What a `Weight` promises: a sum with no weight is the other part.
abbrev pub HasZero : {W : Type 0} → BatchWeights W → Type 0
HasZero {W} w = (a : W) → w.checked_add w.zero a ≡ some a

abbrev pub IsU32 : {W : Type 0} → MessageNonce × MessageDetails W → Type 0
IsU32 m = m.1.size < u32_mod

module _ {W : Type 0} (w : BatchWeights W) where
  -- The sum of the dispatch weights, if it can be computed, and that of the sizes.
  abbrev pub weight_of : W → MessageDetailsMap W → Option W
  weight_of sum [] = some sum
  weight_of sum ((nonce, details) ∷ messages) =
      w.checked_add sum details.dispatch_weight >>= λ t. weight_of t messages

  abbrev pub size_of : MessageDetailsMap W → ℕ
  size_of [] = 0
  size_of ((nonce, details) ∷ messages) = details.size + size_of messages

  -- The messages respect the limits; the weight and the size of a single one do not count.
  abbrev pub Fits : BatchReference W → MessageDetailsMap W → Type 0
  Fits reference messages =
      (length messages ≤ reference.max_messages_in_this_batch)
      × ((length messages ≤ 1)
          ⊎ ((sum : W) × (weight_of w.zero messages ≡ some sum)
              × (w.all_lte sum reference.max_messages_weight_in_single_batch ≡ true)
              × (size_of messages ≤ reference.max_messages_size_in_single_batch)))

  -- The loop has taken these messages.
  record Holds (reference : BatchReference W) (taken : MessageDetailsMap W) (s : Selection W)
      : Type 0 where
    index : s.hard_selected_count ≡ length taken
    count : s.selected_count ≡ length taken
    most : length taken ≤ reference.max_messages_in_this_batch
    weight : weight_of w.zero taken ≡ some s.selected_weight
    size : size_of taken ≡ s.selected_size
    small : s.selected_size < u32_mod
    fits :
        (length taken ≤ 1)
        ⊎ ((w.all_lte s.selected_weight reference.max_messages_weight_in_single_batch ≡ true)
            × (s.selected_size ≤ reference.max_messages_size_in_single_batch))

  weight_of-next :
      (sum : W) (taken : MessageDetailsMap W) (m : MessageNonce × MessageDetails W)
      → weight_of sum (taken ++ m ∷ [])
        ≡ (weight_of sum taken >>= λ t. w.checked_add t m.1.dispatch_weight)
  weight_of-next sum [] m = elim (Option-cases (w.checked_add sum m.1.dispatch_weight)) [
    | inl e ↦ rw e refl
    | inr (t, e) ↦ rw e refl
  ]
  weight_of-next sum ((nonce, details) ∷ taken) m =
      elim (Option-cases (w.checked_add sum details.dispatch_weight)) [
        | inl e ↦ rw e refl
        | inr (t, e) ↦ rw e (weight_of-next t taken m)
      ]

  size_of-next :
      (taken : MessageDetailsMap W) (m : MessageNonce × MessageDetails W)
      → size_of (taken ++ m ∷ []) ≡ size_of taken + m.1.size
  size_of-next [] m = omega arith
  size_of-next ((nonce, details) ∷ taken) m = omega (arith, size_of-next taken m)

  Holds-Fits :
      (reference : BatchReference W) (taken : MessageDetailsMap W) (s : Selection W)
      → Holds reference taken s
      → Fits reference taken
  Holds-Fits reference taken s h = (
    h.most,
    elim h.fits [
      | inl one ↦ inl one
      | inr (lte, le) ↦ inr (s.selected_weight, h.weight, lte, omega (arith, h.size))
    ],
  )

  -- A first message is taken whatever it weighs.
  select_one-first :
      (reference : BatchReference W) (m : MessageNonce × MessageDetails W) (s : Selection W)
      → HasZero w
      → IsU32 m
      → s.selected_count ≡ 0
      → s.selected_weight ≡ w.zero
      → s.selected_size ≡ 0
      → select_one w reference 0 m.1 s ≡ (
          if ltb reference.max_messages_in_this_batch 1
          then none
          else some (record {
            hard_selected_count = 1;
            selected_weight = m.1.dispatch_weight;
            selected_count = 1;
            selected_size = m.1.size;
          }))
  unfolding select_one
  select_one-first reference m s zero_add small c e z =
      rw (c, e, z, zero_add m.1.dispatch_weight) (ground arith)

  -- A round takes the message exactly when the messages still fit with it.
  select_one-later :
      (reference : BatchReference W) (index : ℕ) (details : MessageDetails W) (s : Selection W)
      → 0 < s.selected_count
      → s.selected_count + 1 < u64_mod
      → ((sum : W) × (w.checked_add s.selected_weight details.dispatch_weight ≡ some sum)
          × (w.all_lte sum reference.max_messages_weight_in_single_batch ≡ true)
          × (s.selected_size + details.size < u32_mod)
          × (s.selected_size + details.size ≤ reference.max_messages_size_in_single_batch)
          × (s.selected_count + 1 ≤ reference.max_messages_in_this_batch)
          × (select_one w reference index details s
              ≡ some (record {
                hard_selected_count = index + 1;
                selected_weight = sum;
                selected_count = s.selected_count + 1;
                selected_size = s.selected_size + details.size;
              })))
        ⊎ ((select_one w reference index details s ≡ none)
            × (((sum : W) × (w.checked_add s.selected_weight details.dispatch_weight ≡ some sum)
                  × (w.all_lte sum reference.max_messages_weight_in_single_batch ≡ true)
                  × (s.selected_size + details.size < u32_mod)
                  × (s.selected_size + details.size ≤ reference.max_messages_size_in_single_batch)
                  × (s.selected_count + 1 ≤ reference.max_messages_in_this_batch))
                → ⊥))
  unfolding select_one
  select_one-later reference index details s some_taken room =
      elim (Option-cases (w.checked_add s.selected_weight details.dispatch_weight)) [
        | inl e ↦ inr (ground arith, λ h. cc)
        | inr (sum, e) ↦
            elim (Bool-cases (w.all_lte sum reference.max_messages_weight_in_single_batch)) [
              | inr over ↦ inr (ground arith, λ (sum', e', lte, _, _, _). cc)
              | inl lte ↦
                  let fits =
                    ltb (s.selected_size + details.size) u32_mod
                    && leb (s.selected_size + details.size)
                        reference.max_messages_size_in_single_batch
                    && leb (s.selected_count + 1) reference.max_messages_in_this_batch in
                  elim (Bool-cases fits) [
                    | inl all ↦
                        inl (sum, e, lte, ground arith, ground arith, ground arith, ground arith)
                    | inr some_not ↦ inr (ground arith, λ (_, _, _, a, b, c). ground arith)
                  ]
            ]
      ]

  -- A round takes the message exactly when the messages still fit with it.
  select_one-decides :
      (reference : BatchReference W) (taken : MessageDetailsMap W)
      (m : MessageNonce × MessageDetails W) (s : Selection W)
      → HasZero w
      → reference.max_messages_size_in_single_batch < u32_mod
      → length taken + 1 < u64_mod
      → IsU32 m
      → Holds reference taken s
      → ((s' : Selection W) × (select_one w reference (length taken) m.1 s ≡ some s')
          × Holds reference (taken ++ m ∷ []) s')
        ⊎ ((select_one w reference (length taken) m.1 s ≡ none)
            × (¬ Fits reference (taken ++ m ∷ [])))
  select_one-decides reference [] m s zero_add word room small h =
      let step =
        select_one-first reference m s zero_add small h.count (same_some refl (sym h.weight))
          (sym h.size) in
      elim (Bool-cases (ltb reference.max_messages_in_this_batch 1)) [
        | inl full ↦ inr (rw full at step, λ f. ground (arith, f.0))
        | inr free ↦ inl (
          record {
            hard_selected_count = 1;
            selected_weight = m.1.dispatch_weight;
            selected_count = 1;
            selected_size = m.1.size;
          },
          rw free at step,
          record {
            index = refl;
            count = refl;
            most = ground arith;
            weight = rw (zero_add m.1.dispatch_weight) refl;
            size = omega arith;
            small = small;
            fits = inl (omega arith);
          },
        )
      ]
  select_one-decides reference (x ∷ taken) m s zero_add word room small h =
      let n = length-append (x ∷ taken) (m ∷ []) in
      let all_weight =
        weight_of-next w.zero (x ∷ taken) m
        ∙ ap (λ o. o >>= λ t. w.checked_add t m.1.dispatch_weight) h.weight in
      let all_size = size_of-next (x ∷ taken) m in
      elim (select_one-later reference (length (x ∷ taken)) m.1 s (omega (arith, h.count))
        (omega (arith, h.count))) [
          | inl (sum, e, lte, z, le, most, step) ↦ inl (
            record {
              hard_selected_count = length (x ∷ taken) + 1;
              selected_weight = sum;
              selected_count = s.selected_count + 1;
              selected_size = s.selected_size + m.1.size;
            },
            step,
            record {
              index = omega (arith, n);
              count = omega (arith, n, h.count);
              most = omega (arith, n, h.count);
              weight = all_weight ∙ e;
              size = omega (arith, all_size, h.size);
              small = z;
              fits = inr (lte, le);
            },
          )
          | inr (stops, never) ↦ inr (
            stops,
            λ f. elim f.1 [
              | inl one ↦ omega (arith, n)
              | inr (sum, e, lte, le) ↦ never (
                sum,
                sym all_weight ∙ e,
                lte,
                omega (arith, all_size, h.size),
                omega (arith, all_size, h.size),
                omega (arith, f.0, n, h.count),
              )
            ],
          )
        ]

  -- The messages that the loop leaves, if any, start with one that does not fit.
  abbrev pub IsFull : BatchReference W → MessageDetailsMap W → MessageDetailsMap W → Type 0
  IsFull reference taken [] = Unit
  IsFull reference taken (m ∷ rest) = ¬ Fits reference (taken ++ m ∷ [])

  select_loop-takes :
      (reference : BatchReference W) (taken messages : MessageDetailsMap W) (s : Selection W)
      → HasZero w
      → reference.max_messages_size_in_single_batch < u32_mod
      → length (taken ++ messages) + 1 < u64_mod
      → All IsU32 messages
      → Holds reference taken s
      → (batch rest : MessageDetailsMap W) × (taken ++ messages ≡ batch ++ rest)
        × Holds reference batch (select_loop w reference (length taken) messages s)
        × IsFull reference batch rest
  unfolding select_loop
  select_loop-takes reference taken [] s zero_add word room small h = (taken, [], refl, h, tt)
  select_loop-takes reference taken (m ∷ messages) s zero_add word room small h =
      let next : length (taken ++ m ∷ []) ≡ length taken + 1 =
        omega (arith, length-append taken (m ∷ [])) in
      let same : (taken ++ m ∷ []) ++ messages ≡ taken ++ m ∷ messages =
        append_assoc taken (m ∷ []) messages in
      elim (select_one-decides reference taken m s zero_add word
        (omega (arith, length-append taken (m ∷ messages))) small.0 h) [
          | inr (stops, over) ↦ (taken, m ∷ messages, refl, rw (stops, select_loop) h, over)
          | inl (s', e, h') ↦
              let (batch, rest, parts, holds, full) =
                select_loop-takes reference (taken ++ m ∷ []) messages s' zero_add word
                  (rw same room) small.1 h' in
              (batch, rest, sym same ∙ parts, rw (e, select_loop) (rw next at holds), full)
        ]

  empty-Holds : (reference : BatchReference W) → Holds reference [] (empty_selection w)
  empty-Holds reference = record {
    index = refl;
    count = refl;
    most = omega arith;
    weight = refl;
    size = refl;
    small = omega arith;
    fits = inl (omega arith);
  }

  module _ (reference : BatchReference W) (first : HeaderId × MessageDetailsMap W) where
    -- The first nonce to select.
    abbrev pub begin_of : MessageNonce
    begin_of = max (add_u64 reference.best_target_nonce 1) (details_maps.begin first.1)

    -- Where adding to the zero weight changes nothing, the sizes and their limit are numbers of
    -- 32 bits, the first available entry is in the queue and one more than the number of ready
    -- messages is a number of 64 bits, `decide` cuts the ready messages in two: those before the
    -- cut are within the limit on their number and, unless they are a single one, within those on
    -- the weight and the size; with the next message they would not be. It returns as many nonces
    -- from the first one on, or nothing if there are none.
    pub decide-batch :
        HasZero w
        → reference.max_messages_size_in_single_batch < u32_mod
        → get_elem? reference.nonces_queue reference.nonces_queue_range.0 ≡ some first
        → length (ready_from reference begin_of) + 1 < u64_mod
        → All IsU32 (ready_from reference begin_of)
        → (batch rest : MessageDetailsMap W) × (ready_from reference begin_of ≡ batch ++ rest)
          × Fits reference batch
          × IsFull reference batch rest
          × (decide w reference ≡ (
              if length batch == 0
              then none
              else some
                  (record { start = begin_of; end = sub_u64 (add_u64 begin_of (length batch)) 1 })))
    unfolding decide
    decide-batch zero_add word head room small =
        let (batch, rest, parts, holds, full) =
          select_loop-takes reference [] (ready_from reference begin_of) (empty_selection w)
            zero_add word room small (empty-Holds reference) in
        (batch, rest, parts, Holds-Fits reference batch _ holds, full, rw (head, holds.index) refl)
