-- ===== src/Runtime/Owner.antt =====
-- Who may change the owner and the operating mode of a pallet (primitives/runtime/src/lib.rs).
use parity_bridges_common.Common.{
  ℕ, ◌≡◌, ◌≢◌, refl, ap, ◌∙◌, ◌⊎◌, inl, inr, Option, none, some, Result, ok, err, List, [], ◌∷◌,
  ◌==◌, arith, same_some, Bool-cases, false, ok-injective, err_is_not_ok,
}
use parity_bridges_common.Runtime.{
  Origin, root, signed, other, BadOrigin, bad_origin, Owned, set_owner, set_operating_mode,
  ensure_owner_or_root, ensure_not_halted, ensure_signed, is_halted, basic_mode, BasicOperatingMode,
}

pub ensure_signed-signed :
    (origin : Origin) (who : ℕ) → ensure_signed origin ≡ ok who → origin ≡ signed who
ensure_signed-signed root who e = cc
ensure_signed-signed (signed w) who e = ap signed (ok-injective e)
ensure_signed-signed other who e = cc

pub ensure_not_halted-running :
    (s : Owned BasicOperatingMode) → ensure_not_halted s ≡ ok tt → is_halted s.mode ≡ false
unfolding ensure_not_halted
ensure_not_halted-running s e = elim (Bool-cases (is_halted s.mode)) [
  | inl stopped ↦ err_is_not_ok refl (rw stopped at e)
  | inr running ↦ running
]

-- Root and the owner, if there is one.
abbrev pub IsAuthorised : Option ℕ → Origin → Type 0
IsAuthorised owner root = Unit
IsAuthorised owner (signed who) = owner ≡ some who
IsAuthorised owner other = ⊥

pub data Call (M : Type 0) : Type 0 where
  change_owner : Origin → Option ℕ → Call M
  change_mode : Origin → M → Call M

module _ {M : Type 0} where
  abbrev pub origin : Call M → Origin
  origin (change_owner o owner) = o
  origin (change_mode o mode) = o

  abbrev pub accepted : Owned M → Result BadOrigin (Owned M) → Owned M
  accepted s (ok after) = after
  accepted s (err e) = s

  -- A call that fails changes nothing.
  unfoldable pub administer : Owned M → List (Call M) → Owned M
  administer s [] = s
  administer s (change_owner o owner ∷ calls) = administer (accepted s (set_owner s o owner)) calls
  administer s (change_mode o mode ∷ calls) =
      administer (accepted s (set_operating_mode s o mode)) calls

  decides_signed :
      (owner : Option ℕ) (mode : M) (who : ℕ)
      → ((owner ≡ some who)
          × (ensure_owner_or_root (record { owner = owner; mode = mode }) (signed who) ≡ ok tt))
        ⊎ ((owner ≢ some who)
            × (ensure_owner_or_root (record { owner = owner; mode = mode }) (signed who)
                ≡ err bad_origin))
  unfolding ensure_owner_or_root
  decides_signed none mode who = inr (λ e. cc, refl)
  decides_signed (some o) mode who = elim (Bool-cases (o == who)) [
    | inl e ↦ inl (ap some (ground (arith, e)), rw e refl)
    | inr e ↦ inr (λ h. ground (arith, e, same_some refl h), rw e refl)
  ]

  ensure_owner_or_root-decides :
      (s : Owned M) (o : Origin)
      → (IsAuthorised s.owner o × (ensure_owner_or_root s o ≡ ok tt))
        ⊎ ((¬ IsAuthorised s.owner o) × (ensure_owner_or_root s o ≡ err bad_origin))
  unfolding ensure_owner_or_root
  ensure_owner_or_root-decides s root = inl (tt, refl)
  ensure_owner_or_root-decides s (signed who) = decides_signed s.owner s.mode who
  ensure_owner_or_root-decides s other = inr (λ a. a, refl)

  pub set_owner-decides :
      (s : Owned M) (o : Origin) (next : Option ℕ)
      → (IsAuthorised s.owner o × (set_owner s o next ≡ ok (record s { owner = next })))
        ⊎ ((¬ IsAuthorised s.owner o) × (set_owner s o next ≡ err bad_origin))
  unfolding set_owner
  set_owner-decides s o next = elim (ensure_owner_or_root-decides s o) [
    | inl (a, e) ↦ inl (a, rw e refl)
    | inr (a, e) ↦ inr (a, rw e refl)
  ]

  pub set_operating_mode-decides :
      (s : Owned M) (o : Origin) (mode : M)
      → (IsAuthorised s.owner o × (set_operating_mode s o mode ≡ ok (record s { mode = mode })))
        ⊎ ((¬ IsAuthorised s.owner o) × (set_operating_mode s o mode ≡ err bad_origin))
  unfolding set_operating_mode
  set_operating_mode-decides s o mode = elim (ensure_owner_or_root-decides s o) [
    | inl (a, e) ↦ inl (a, rw e refl)
    | inr (a, e) ↦ inr (a, rw e refl)
  ]

  -- None of the calls comes from root or the owner.
  abbrev pub IsForeign : Option ℕ → List (Call M) → Type 0
  IsForeign owner [] = Unit
  IsForeign owner (call ∷ calls) = (¬ IsAuthorised owner (origin call)) × IsForeign owner calls

  refused_owner :
      (s : Owned M) (o : Origin) (next : Option ℕ)
      → ¬ IsAuthorised s.owner o
      → accepted s (set_owner s o next) ≡ s
  refused_owner s o next refused = elim (set_owner-decides s o next) [
    | inl (a, e) ↦ absurd (refused a)
    | inr (a, e) ↦ rw e refl
  ]

  refused_mode :
      (s : Owned M) (o : Origin) (mode : M)
      → ¬ IsAuthorised s.owner o
      → accepted s (set_operating_mode s o mode) ≡ s
  refused_mode s o mode refused = elim (set_operating_mode-decides s o mode) [
    | inl (a, e) ↦ absurd (refused a)
    | inr (a, e) ↦ rw e refl
  ]

  -- Any sequence of calls that would set the owner or the operating mode, none of which comes
  -- from root or from the pallet's owner, leaves both as they are, a failed call changing
  -- nothing.
  pub administer_foreign :
      (s : Owned M) (calls : List (Call M)) → IsForeign s.owner calls → administer s calls ≡ s
  unfolding administer
  administer_foreign s [] f = refl
  administer_foreign s (change_owner o next ∷ calls) (refused, f) =
      ap (λ t. administer t calls) (refused_owner s o next refused) ∙ administer_foreign s calls f
  administer_foreign s (change_mode o mode ∷ calls) (refused, f) =
      ap (λ t. administer t calls) (refused_mode s o mode refused) ∙ administer_foreign s calls f
