-- ===== src/Messages/Inbound/Chain.antt =====
-- The queue of unrewarded relayers as a chain of nonce ranges.
use parity_bridges_common.Common.{
  ◌+◌, ◌≤◌, ◌<◌, ◌≡◌, refl, Bool, false, ◌&&◌, ◌||◌, Option, none, some, List, [], ◌∷◌, u64_mod,
  arith, leb, ltb, ◌==◌, is_some, length, if◌then◌else◌,
}
use parity_bridges_common.Messages.Types.{
  MessageNonce, AccountId, UnrewardedRelayer, contains_message, last_delivered_nonce,
}
use parity_bridges_common.Messages.Inbound.{drop_confirmed, trim_front, note_delivery}

-- Entries that follow on one another, the first on the nonce `n`.
abbrev pub Linked : MessageNonce → List UnrewardedRelayer → Type 0
Linked n [] = Unit
Linked n (e ∷ es) =
    (e.messages.begin ≡ n + 1) × (e.messages.begin ≤ e.messages.end) × Linked e.messages.end es

-- The same, but the first entry may still begin with `n` itself.
abbrev pub IsQueueFrom : MessageNonce → List UnrewardedRelayer → Type 0
IsQueueFrom n [] = Unit
IsQueueFrom n (e ∷ es) =
    (n ≤ e.messages.begin)
    × (e.messages.begin ≤ n + 1)
    × (n < e.messages.end)
    × Linked e.messages.end es

abbrev pub last_from : MessageNonce → List UnrewardedRelayer → MessageNonce
last_from n [] = n
last_from n (e ∷ es) = last_from e.messages.end es

-- Who is to be rewarded for a nonce.
abbrev pub deliverer : MessageNonce → List UnrewardedRelayer → Option AccountId
deliverer m [] = none
deliverer m (e ∷ es) = if contains_message e.messages m then some e.relayer else deliverer m es

pub last_delivered-last_from :
    (c : MessageNonce) (es : List UnrewardedRelayer)
    → last_delivered_nonce (record { relayers = es; last_confirmed_nonce = c }) ≡ last_from c es
unfolding last_delivered_nonce
last_delivered-last_from c [] = refl
last_delivered-last_from c (e ∷ []) = refl
last_delivered-last_from c (e ∷ f ∷ es) = last_delivered-last_from c (f ∷ es)

pub Linked-le : (n : MessageNonce) (es : List UnrewardedRelayer) → Linked n es → n ≤ last_from n es
Linked-le n [] l = omega arith
Linked-le n (e ∷ es) l = omega (arith, Linked-le e.messages.end es l.2)

pub IsQueueFrom-le :
    (n : MessageNonce) (es : List UnrewardedRelayer) → IsQueueFrom n es → n ≤ last_from n es
IsQueueFrom-le n [] q = omega arith
IsQueueFrom-le n (e ∷ es) q = omega (arith, Linked-le e.messages.end es q.3)

-- Every nonce of a chain has its deliverer, and no other nonce has one.
pub deliverer-Linked :
    (m n : MessageNonce) (es : List UnrewardedRelayer)
    → Linked n es
    → is_some (deliverer m es) ≡ (ltb n m && leb m (last_from n es))
deliverer-Linked m n [] l = ground arith
deliverer-Linked m n (e ∷ es) l =
    ground (arith, deliverer-Linked m e.messages.end es l.2, Linked-le e.messages.end es l.2)

drop_confirmed-Linked :
    (confirmed n : MessageNonce) (es : List UnrewardedRelayer)
    → confirmed + 1 < u64_mod
    → n ≤ confirmed
    → confirmed ≤ last_from n es
    → Linked n es
    → IsQueueFrom confirmed (trim_front confirmed (drop_confirmed confirmed es))
      × (last_from confirmed (trim_front confirmed (drop_confirmed confirmed es)) ≡ last_from n es)
unfolding drop_confirmed trim_front
drop_confirmed-Linked confirmed n [] room le reach l = (tt, omega arith)
drop_confirmed-Linked confirmed n (e ∷ es) room le reach l =
    ground (arith, drop_confirmed-Linked confirmed e.messages.end es)

-- Forgetting the confirmed nonces gives a queue from the confirmed nonce, which ends where it did.
pub trim-IsQueueFrom :
    (confirmed n : MessageNonce) (es : List UnrewardedRelayer)
    → confirmed + 1 < u64_mod
    → n < confirmed
    → confirmed ≤ last_from n es
    → IsQueueFrom n es
    → IsQueueFrom confirmed (trim_front confirmed (drop_confirmed confirmed es))
      × (last_from confirmed (trim_front confirmed (drop_confirmed confirmed es)) ≡ last_from n es)
unfolding drop_confirmed trim_front
trim-IsQueueFrom confirmed n [] room lt reach q = (tt, omega arith)
trim-IsQueueFrom confirmed n (e ∷ es) room lt reach q =
    ground (arith, drop_confirmed-Linked confirmed e.messages.end es)

deliverer-trim_Linked :
    (confirmed n m : MessageNonce) (es : List UnrewardedRelayer)
    → confirmed + 1 < u64_mod
    → confirmed < m
    → Linked n es
    → deliverer m (trim_front confirmed (drop_confirmed confirmed es)) ≡ deliverer m es
unfolding drop_confirmed trim_front
deliverer-trim_Linked confirmed n m [] room lt l = refl
deliverer-trim_Linked confirmed n m (e ∷ es) room lt l =
    ground (arith, deliverer-trim_Linked confirmed e.messages.end m es)

-- Nonces beyond the confirmed one keep their deliverers.
pub deliverer-trim :
    (confirmed n m : MessageNonce) (es : List UnrewardedRelayer)
    → confirmed + 1 < u64_mod
    → confirmed < m
    → IsQueueFrom n es
    → deliverer m (trim_front confirmed (drop_confirmed confirmed es)) ≡ deliverer m es
unfolding drop_confirmed trim_front
deliverer-trim confirmed n m [] room lt q = refl
deliverer-trim confirmed n m (e ∷ es) room lt q =
    ground (arith, deliverer-trim_Linked confirmed e.messages.end m es)

note_delivery-Linked :
    (relayer : AccountId) (n : MessageNonce) (es : List UnrewardedRelayer)
    → last_from n es + 1 < u64_mod
    → Linked n es
    → Linked n (note_delivery relayer (last_from n es + 1) es)
      × (last_from n (note_delivery relayer (last_from n es + 1) es) ≡ last_from n es + 1)
unfolding note_delivery
note_delivery-Linked relayer n [] room l = ground arith
note_delivery-Linked relayer n (e ∷ []) room l = ground arith
note_delivery-Linked relayer n (e ∷ f ∷ es) room l =
    ground (arith, note_delivery-Linked relayer e.messages.end (f ∷ es))

pub note_delivery-IsQueueFrom :
    (relayer : AccountId) (n : MessageNonce) (es : List UnrewardedRelayer)
    → last_from n es + 1 < u64_mod
    → IsQueueFrom n es
    → IsQueueFrom n (note_delivery relayer (last_from n es + 1) es)
      × (last_from n (note_delivery relayer (last_from n es + 1) es) ≡ last_from n es + 1)
unfolding note_delivery
note_delivery-IsQueueFrom relayer n [] room q = ground arith
note_delivery-IsQueueFrom relayer n (e ∷ []) room q = ground arith
note_delivery-IsQueueFrom relayer n (e ∷ f ∷ es) room q =
    ground (arith, note_delivery-Linked relayer e.messages.end (f ∷ es))

pub length-note_delivery :
    (relayer : AccountId) (n : MessageNonce) (es : List UnrewardedRelayer)
    → length (note_delivery relayer n es) ≤ length es + 1
unfolding note_delivery
length-note_delivery relayer n [] = omega arith
length-note_delivery relayer n (e ∷ []) = ground arith
length-note_delivery relayer n (e ∷ f ∷ es) = omega (arith, length-note_delivery relayer n (f ∷ es))

pub length-trim :
    (n : MessageNonce) (es : List UnrewardedRelayer)
    → length (trim_front n (drop_confirmed n es)) ≤ length es
unfolding trim_front drop_confirmed
length-trim n [] = omega arith
length-trim n (e ∷ es) = ground (arith, length-trim n es)

deliverer-note_Linked :
    (relayer : AccountId) (n m : MessageNonce) (es : List UnrewardedRelayer)
    → last_from n es + 1 < u64_mod
    → Linked n es
    → deliverer m (note_delivery relayer (last_from n es + 1) es)
      ≡ (if m == last_from n es + 1 then some relayer else deliverer m es)
unfolding note_delivery
deliverer-note_Linked relayer n m [] room l = ground arith
deliverer-note_Linked relayer n m (e ∷ []) room l = ground arith
deliverer-note_Linked relayer n m (e ∷ f ∷ es) room l = ground (
  arith,
  deliverer-note_Linked relayer e.messages.end m (f ∷ es),
  Linked-le e.messages.end (f ∷ es) l.2,
)

-- The new nonce is delivered by the relayer, and the deliverers of the others do not change.
pub deliverer-note_delivery :
    (relayer : AccountId) (n m : MessageNonce) (es : List UnrewardedRelayer)
    → last_from n es + 1 < u64_mod
    → IsQueueFrom n es
    → deliverer m (note_delivery relayer (last_from n es + 1) es)
      ≡ (if m == last_from n es + 1 then some relayer else deliverer m es)
unfolding note_delivery
deliverer-note_delivery relayer n m [] room q = ground arith
deliverer-note_delivery relayer n m (e ∷ []) room q = ground arith
deliverer-note_delivery relayer n m (e ∷ f ∷ es) room q = ground (
  arith,
  deliverer-note_Linked relayer e.messages.end m (f ∷ es),
  Linked-le e.messages.end (f ∷ es) q.3,
)

-- Does an entry with more than one message begin with the nonce?
abbrev pub starts_longer : MessageNonce → List UnrewardedRelayer → Bool
starts_longer n [] = false
starts_longer n (e ∷ es) = (e.messages.begin == n && ltb n e.messages.end) || starts_longer n es

starts_longer-above :
    (n c : MessageNonce) (es : List UnrewardedRelayer)
    → n ≤ c
    → Linked c es
    → starts_longer n es ≡ false
starts_longer-above n c [] le l = refl
starts_longer-above n c (e ∷ es) le l = ground (arith, starts_longer-above n e.messages.end es)

pub deliverer-Linked_below :
    (m n : MessageNonce) (es : List UnrewardedRelayer) → m ≤ n → Linked n es → deliverer m es ≡ none
deliverer-Linked_below m n [] le l = refl
deliverer-Linked_below m n (e ∷ es) le l =
    ground (arith, deliverer-Linked_below m e.messages.end es)

confirmed-trim_Linked :
    (confirmed n m : MessageNonce) (es : List UnrewardedRelayer)
    → confirmed + 1 < u64_mod
    → m ≤ confirmed
    → Linked n es
    → is_some (deliverer m (trim_front confirmed (drop_confirmed confirmed es)))
      ≡ (m == confirmed && starts_longer confirmed es)
unfolding drop_confirmed trim_front
confirmed-trim_Linked confirmed n m [] room le l = ground arith
confirmed-trim_Linked confirmed n m (e ∷ es) room le l = ground (
  arith,
  confirmed-trim_Linked confirmed e.messages.end m es,
  starts_longer-above confirmed e.messages.end es,
  deliverer-Linked_below m e.messages.end es,
)

-- Of the nonces up to the confirmed one, only that one may stay: when it begins a longer entry.
pub confirmed-trim :
    (confirmed n m : MessageNonce) (es : List UnrewardedRelayer)
    → confirmed + 1 < u64_mod
    → m ≤ confirmed
    → IsQueueFrom n es
    → is_some (deliverer m (trim_front confirmed (drop_confirmed confirmed es)))
      ≡ (m == confirmed && starts_longer confirmed es)
unfolding drop_confirmed trim_front
confirmed-trim confirmed n m [] room le q = ground arith
confirmed-trim confirmed n m (e ∷ es) room le q = ground (
  arith,
  confirmed-trim_Linked confirmed e.messages.end m es,
  starts_longer-above confirmed e.messages.end es,
  deliverer-Linked_below m e.messages.end es,
)
