-- ===== src/Grandpa/RingBuffer.antt =====
-- The ring buffer of imported headers (`insert_header` of modules/grandpa/src/lib.rs).
pub mod Calls
use parity_bridges_common.Common.{
  ℕ, ◌%◌, ◌≤◌, ◌<◌, ◌≡◌, ◌≢◌, refl, sym, ap, ◌∙◌, inl, inr, Option, none, some, arith, ◌==◌, update,
  update_self, add_u32, some_is_not_none, same_some, Option-cases, u32_mod, IsRing, pushed,
  pushed-new, pushed_found, pushed-IsRing,
}
use parity_bridges_common.Justification.{Hash}
use parity_bridges_common.Grandpa.{Config, State, HeaderId, StoredHeaderData, build}
use parity_bridges_common.Grandpa.Pallet.{insert_header}

module _ {Header : Type 0} (c : Config Header) where
  -- Headers with the same hash have the same number.
  abbrev pub IsCollisionFree : Type 0
  IsCollisionFree = (x y : Header) → c.ops.hash x ≡ c.ops.hash y → c.ops.number x ≡ c.ops.number y

  -- The data under a hash is that of a header with this hash, not above the best header.
  pub record Holds (s : State) (hash : Hash) (d : StoredHeaderData) : Type 0 where
    pub header : Header
    pub hashed : c.ops.hash header ≡ hash
    pub stored : d ≡ build c header
    pub best : HeaderId
    pub known_best : s.best_finalized ≡ some best
    pub below : c.ops.number header ≤ best.number

  -- The buffer holds the hashes of the stored headers, each of them once and the best header's among
  -- them.
  pub record IsValid (s : State) : Type 0 where
    pub pointer : s.imported_hashes_pointer < c.headers_to_keep
    pub ring : IsRing c.headers_to_keep s.imported_hashes s.imported_headers
    pub held : (h : Hash) (d : StoredHeaderData) → s.imported_headers h ≡ some d → Holds s h d
    pub best :
        (id : HeaderId)
        → s.best_finalized ≡ some id
        → (i : ℕ) × (s.imported_hashes i ≡ some id.hash)

  -- The header is above the best one, if there is one.
  abbrev pub IsNewer : State → Header → Type 0
  IsNewer s header = (id : HeaderId) → s.best_finalized ≡ some id → id.number < c.ops.number header

  module _ (s : State) (header : Header) (free : IsCollisionFree) (newer : IsNewer s header)
      (v : IsValid s) where
    abbrev new_hash : Hash
    new_hash = c.ops.hash header

    abbrev after : State
    after = insert_header c s header new_hash

    -- No header is stored under the new header's hash.
    not_stored : s.imported_headers new_hash ≡ none
    not_stored = elim (Option-cases (s.imported_headers new_hash)) [
      | inl absent ↦ absent
      | inr (d, found) ↦
          let h = v.held new_hash d found in
          let same = free h.header header h.hashed in
          absurd (omega (arith, h.below, newer h.best h.known_best))
    ]

    pub insert_header-stored : after.imported_headers new_hash ≡ some (build c header)
    unfolding insert_header
    insert_header-stored =
        pushed-new s.imported_hashes s.imported_headers s.imported_hashes_pointer new_hash
          (build c header)
          (λ old at same.
            some_is_not_none (v.ring.held s.imported_hashes_pointer old at).1
              (ap s.imported_headers same ∙ not_stored))

    insert_header-Holds :
        (h : Hash) (d : StoredHeaderData) → after.imported_headers h ≡ some d → Holds after h d
    unfolding insert_header
    insert_header-Holds h d e =
        elim (pushed_found s.imported_hashes s.imported_headers s.imported_hashes_pointer new_hash
          (build c header) h d e) [
            | inl same ↦ record {
              header = header;
              hashed = same;
              stored = same_some e (ap after.imported_headers (sym same) ∙ insert_header-stored);
              best = record { number = c.ops.number header; hash = new_hash };
              known_best = refl;
              below = omega arith;
            }
            | inr (found, stays) ↦
                let old = v.held h d found in
                record {
                  header = old.header;
                  hashed = old.hashed;
                  stored = old.stored;
                  best = record { number = c.ops.number header; hash = new_hash };
                  known_best = refl;
                  below = omega (arith, old.below, newer old.best old.known_best);
                }
          ]

    -- The import of a header above the best one, where headers with the same hash have the same
    -- number, keeps the ring buffer valid.
    pub insert_header-IsValid : c.headers_to_keep < u32_mod → IsValid after
    unfolding insert_header
    insert_header-IsValid small = record {
      pointer = ground (arith, v.pointer, small);
      ring =
          pushed-IsRing s.imported_hashes s.imported_headers s.imported_hashes_pointer new_hash
            (build c header) c.headers_to_keep v.pointer not_stored v.ring;
      held = insert_header-Holds;
      best = λ id e. (
        s.imported_hashes_pointer,
        update_self s.imported_hashes s.imported_hashes_pointer (some new_hash)
            ∙ ap (λ t. some t.hash) (same_some refl e),
      );
    }
