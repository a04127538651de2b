-- ===== src/Runtime.antt =====
-- `OwnedBridgeModule` of primitives/runtime/src/lib.rs: the owner and the operating mode that each
-- bridge pallet keeps.
pub mod Owner
use parity_bridges_common.Common.{
  ℕ, Bool, true, false, Option, none, some, Result, ok, err, ◌>>◌, ◌==◌, if◌then◌else◌,
}

pub data BasicOperatingMode : Type 0 where
  normal halted : BasicOperatingMode

-- The trait `OperatingMode`.
pub record OperatingMode (M : Type 0) : Type 0 where
  pub is_halted : M → Bool

abbrev pub is_halted : BasicOperatingMode → Bool
is_halted normal = false
is_halted halted = true

instance abbrev pub basic_mode : OperatingMode BasicOperatingMode
basic_mode = record { is_halted = is_halted }

-- `frame_system::RawOrigin`.
pub data Origin : Type 0 where
  root : Origin
  signed : ℕ → Origin
  other : Origin

-- `sp_runtime::traits::BadOrigin`.
pub data BadOrigin : Type 0 where
  bad_origin : BadOrigin

pub data OwnedBridgeModuleError : Type 0 where
  module_halted : OwnedBridgeModuleError

-- `sp_runtime::DispatchError`, as far as the pallets' calls make it.
pub data DispatchError (E : Type 0) : Type 0 where
  from_origin : BadOrigin → DispatchError E
  from_pallet : E → DispatchError E

-- `OwnerStorage` and `OperatingModeStorage`.
pub record Owned (M : Type 0) : Type 0 where
  pub owner : Option ℕ
  pub mode : M

module _ {M : Type 0} ⦃m : OperatingMode M⦄ where
  unfoldable pub ensure_not_halted : Owned M → Result OwnedBridgeModuleError (Unit {0})
  ensure_not_halted s = if m.is_halted s.mode then err module_halted else ok tt

-- `frame_system::ensure_signed`.
abbrev pub ensure_signed : Origin → Result BadOrigin ℕ
ensure_signed root = err bad_origin
ensure_signed (signed who) = ok who
ensure_signed other = err bad_origin

is_owner : Option ℕ → ℕ → Bool
is_owner none signer = false
is_owner (some o) signer = o == signer

module _ {M : Type 0} where
  unfoldable pub ensure_owner_or_root : Owned M → Origin → Result BadOrigin (Unit {0})
  unfolding is_owner
  ensure_owner_or_root s root = ok tt
  ensure_owner_or_root s (signed who) = if is_owner s.owner who then ok tt else err bad_origin
  ensure_owner_or_root s other = err bad_origin

  unfoldable pub set_owner : Owned M → Origin → Option ℕ → Result BadOrigin (Owned M)
  set_owner s origin maybe_owner = do
    ensure_owner_or_root s origin
    ok (record s { owner = maybe_owner })

  unfoldable pub set_operating_mode : Owned M → Origin → M → Result BadOrigin (Owned M)
  set_operating_mode s origin operating_mode = do
    ensure_owner_or_root s origin
    ok (record s { mode = operating_mode })
