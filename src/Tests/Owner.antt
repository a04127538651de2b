-- ===== src/Tests/Owner.antt =====
-- Calls that would change the owner and the mode of a pallet.
use parity_bridges_common.Common.{◌≡◌, refl, none, some, List, [], ◌∷◌, arith, same_some}
use parity_bridges_common.Runtime.{
  BasicOperatingMode, normal, halted, Owned, signed, other, set_owner, set_operating_mode,
  ensure_owner_or_root,
}
use parity_bridges_common.Runtime.Owner.{
  Call, change_owner, change_mode, administer, administer_foreign,
}

abbrev owned : Owned BasicOperatingMode
owned = record { owner = some 7; mode = normal }

abbrev attempts : List (Call BasicOperatingMode)
attempts =
    change_mode (signed 8) halted ∷ change_owner (signed 9) (some 9) ∷ change_owner other none ∷ []

-- The owner halts the pallet and hands it over.
taken :
    administer owned (change_mode (signed 7) halted ∷ change_owner (signed 7) none ∷ [])
    ≡ record { owner = none; mode = halted }
unfolding administer set_owner set_operating_mode ensure_owner_or_root
taken = refl

administer_foreign_example : administer owned attempts ≡ owned
administer_foreign_example =
    administer_foreign owned attempts
      (λ e. ground (arith, same_some refl e), (λ e. ground (arith, same_some refl e), (λ e. e, tt)))
