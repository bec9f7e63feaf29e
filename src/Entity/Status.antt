-- ===== src/Entity/Status.antt =====
-- When an entity is up.
use kytos.Prelude.{◌≡◌, refl, ◌↔◌, ◌≢◌, Bool, true, false, List, [], ◌∷◌, arith}
use kytos.Entity.{EntityStatus, up, disabled, down, base_status, check_funcs, status}

-- No registered function says DOWN.
abbrev pub NoneDown {ℓ} : {A : Type ℓ} → List (A → EntityStatus) → A → Type 0
NoneDown [] self = Unit
NoneDown (f ∷ fs) self = (f self ≢ down) × NoneDown fs self

module _ {ℓ} {A : Type ℓ} where
  check_funcs-up :
      (funcs : List (A → EntityStatus)) (self : A)
      → check_funcs up funcs self ≡ up
      → NoneDown funcs self
  unfolding check_funcs
  check_funcs-up [] self h = tt
  check_funcs-up (f ∷ fs) self h = (ground arith, check_funcs-up fs self (ground arith))

  check_funcs-state :
      (state : EntityStatus) (funcs : List (A → EntityStatus)) (self : A)
      → NoneDown funcs self
      → check_funcs state funcs self ≡ state
  unfolding check_funcs
  check_funcs-state state [] self h = refl
  check_funcs-state state (f ∷ fs) self h = ground (arith, check_funcs-state state fs self h.1, h.0)

  check_funcs-down :
      (funcs : List (A → EntityStatus)) (self : A) → check_funcs down funcs self ≡ down
  unfolding check_funcs
  check_funcs-down [] self = refl
  check_funcs-down (f ∷ fs) self = ground (arith, check_funcs-down fs self)

  check_funcs-ne-disabled :
      (funcs : List (A → EntityStatus)) (self : A) → check_funcs up funcs self ≢ disabled
  unfolding check_funcs
  check_funcs-ne-disabled [] self h = cc
  check_funcs-ne-disabled (f ∷ fs) self h = check_funcs-ne-disabled fs self (ground arith)

  status-up_iff :
      (enabled active : Bool) (funcs : List (A → EntityStatus)) (self : A)
      → status enabled active funcs self ≡ up
        ↔ (enabled ≡ true) × (active ≡ true) × NoneDown funcs self
  unfolding status base_status
  status-up_iff true true funcs self =
      (λ h. (refl, refl, check_funcs-up funcs self h), λ h. check_funcs-state up funcs self h.2)
  status-up_iff true false funcs self = (λ h. cc (check_funcs-down funcs self), λ h. cc)
  status-up_iff false active funcs self = (λ h. cc, λ h. cc)

  status-disabled_iff :
      (enabled active : Bool) (funcs : List (A → EntityStatus)) (self : A)
      → status enabled active funcs self ≡ disabled ↔ enabled ≡ false
  unfolding status base_status
  status-disabled_iff true true funcs self =
      (λ h. absurd (check_funcs-ne-disabled funcs self h), λ h. cc)
  status-disabled_iff true false funcs self = (λ h. cc (check_funcs-down funcs self), λ h. cc)
  status-disabled_iff false active funcs self = (λ h. refl, λ h. refl)

  -- An entity is up exactly if it is enabled and active and no registered function says DOWN, and
  -- it is disabled exactly if it is not enabled, whatever the functions say.
  pub status_lem :
      (enabled active : Bool) (funcs : List (A → EntityStatus)) (self : A)
      → (status enabled active funcs self ≡ up
          ↔ (enabled ≡ true) × (active ≡ true) × NoneDown funcs self)
        × (status enabled active funcs self ≡ disabled ↔ enabled ≡ false)
  status_lem enabled active funcs self =
      (status-up_iff enabled active funcs self, status-disabled_iff enabled active funcs self)
