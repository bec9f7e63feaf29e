-- ===== src/Switch/Ports/Stored.antt =====
-- What an update stores.
use kytos.Prelude.{
  ℕ, ◌≡◌, refl, sym, ◌∙◌, ◌⊎◌, inl, inr, Bool, true, false, Bool-cases, Option, none, some, List,
  [], ◌∷◌, arith, ◌==◌, Option-cases, if◌then◌else◌,
}
use kytos.Switch.Ports.{
  Port, Given, Ports, find_port, put_port, get_interface_by_port_no, or_old, renewed, new_port,
  update_or_create_interface,
}

module _ {V : Type 0} where
  pub find_port-put_port :
      (n m : ℕ) (p : Port V) (rest : List (ℕ × Port V))
      → find_port m (put_port n p rest) ≡ (if m == n then some p else find_port m rest)
  unfolding find_port put_port
  find_port-put_port n m p [] = refl
  find_port-put_port n m p ((k, q) ∷ rest) = ground (arith, find_port-put_port n m p rest)

module _ {V : Type 0} (truthy : V → Bool) (enabled_by_default : Bool) where
  -- A value that was given and is true is there afterwards; else what was there before.
  abbrev pub Updated : Option V → Option V → Option V → Type 0
  Updated given old new =
      ((v : V) → given ≡ some v → truthy v ≡ true → new ≡ some v)
      × (((v : V) → given ≡ some v → truthy v ≡ false) → new ≡ old)

  or_old-Updated :
      (given old : Option V) → Updated given old (or_old truthy enabled_by_default given old)
  or_old-Updated none old = (λ v e t. cc, λ h. refl)
  or_old-Updated (some v) old = elim (Bool-cases (truthy v)) [
    | inl e ↦ rw e (λ u same t. same, λ h. absurd (yes_and_no (sym e ∙ h v refl)))
    | inr e ↦ rw e (λ u same t. absurd (no_and_yes v u e same t), λ h. refl)
  ]
    where
      yes_and_no : true ≡ false → ⊥
      yes_and_no h = cc

      no_and_yes : (v u : V) → truthy v ≡ false → some v ≡ some u → truthy u ≡ true → ⊥
      no_and_yes v u e same t = cc

  -- An interface that was there: it keeps its number and whether it is enabled, its configuration is
  -- what was given, and the other values are updated.
  abbrev pub IsUpdate : Given V → Port V → Port V → Type 0
  IsUpdate g old new =
      (new.port_number ≡ old.port_number)
      × (new.enabled ≡ old.enabled)
      × (new.config ≡ g.config)
      × Updated g.name old.name new.name
      × Updated g.address old.address new.address
      × Updated g.state old.state new.state
      × Updated g.features old.features new.features
      × Updated g.speed old.custom_speed new.custom_speed

  -- A new interface has the number and what was given.
  abbrev pub IsNew : ℕ → Given V → Port V → Type 0
  IsNew n g new =
      (new.port_number ≡ n)
      × (new.enabled ≡ enabled_by_default)
      × (new.config ≡ g.config)
      × (new.name ≡ g.name)
      × (new.address ≡ g.address)
      × (new.state ≡ g.state)
      × (new.features ≡ g.features)
      × (new.custom_speed ≡ g.speed)

  renewed-IsUpdate :
      (g : Given V) (p : Port V) → IsUpdate g p (renewed truthy enabled_by_default g p)
  renewed-IsUpdate g p = (
    refl,
    refl,
    refl,
    or_old-Updated g.name p.name,
    or_old-Updated g.address p.address,
    or_old-Updated g.state p.state,
    or_old-Updated g.features p.features,
    or_old-Updated g.speed p.custom_speed,
  )

  -- The interface that is returned is the one that is found under its number from then on, and what is
  -- found under the other numbers stays. If there was none, it is new, with the values that were given.
  -- Else it is the old one: it keeps its number and whether it is enabled, its configuration is what
  -- was given, and its name, address, state, features and speed are those that were given and are
  -- true, and else what they were.
  pub update_or_create_interface_lem :
      (n m : ℕ) (g : Given V) (s : Ports V)
      → (get_interface_by_port_no m (update_or_create_interface truthy enabled_by_default n g s).1
          ≡ (if m == n
              then some (update_or_create_interface truthy enabled_by_default n g s).0
              else get_interface_by_port_no m s))
        × (((get_interface_by_port_no n s ≡ none)
              × IsNew n g (update_or_create_interface truthy enabled_by_default n g s).0)
            ⊎ ((p : Port V) × (get_interface_by_port_no n s ≡ some p)
                × IsUpdate g p (update_or_create_interface truthy enabled_by_default n g s).0))
  unfolding update_or_create_interface get_interface_by_port_no
  update_or_create_interface_lem n m g s = elim (Option-cases (find_port n s.interfaces)) [
    | inl e ↦ rw e (
      find_port-put_port n m (new_port truthy enabled_by_default n g) s.interfaces,
      inl (refl, (refl, refl, refl, refl, refl, refl, refl, refl)),
    )
    | inr (p, e) ↦ rw e (
      find_port-put_port n m (renewed truthy enabled_by_default g p) s.interfaces,
      inr (p, refl, renewed-IsUpdate g p),
    )
  ]
