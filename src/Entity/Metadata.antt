-- ===== src/Entity/Metadata.antt =====
-- What `extend_metadata` leaves under each key.

use kytos.Prelude.{
  ◌≡◌, refl, sym, String, Bool, true, false, Option, none, some, [], ◌∷◌, arith, eq_iff,
  if◌then◌else◌,
}
use kytos.Dict.{Dict, lookup, has_key, lookup-insert}
use kytos.Entity.{
  Entity, get_metadata, extend_metadata, overwrite, add_each, add_metadata, update_metadata,
}

abbrev pub or_else {ℓ} : {A : Type ℓ} → Option A → Option A → Option A
or_else none other = other
or_else (some a) other = some a

-- No key stands twice.
abbrev pub IsDict : {V : Type 0} → Dict V → Type 0
IsDict [] = Unit
IsDict ((key, v) ∷ d) = (lookup key d ≡ none) × IsDict d

or_else-none {ℓ} : {A : Type ℓ} (o : Option A) → or_else o none ≡ o
or_else-none none = refl
or_else-none (some a) = refl

module _ {V : Type 0} where
  has_key-lookup :
      (k : String) (d : Dict V) → has_key k d ≡ elim (lookup k d) [ none ↦ false | some _ ↦ true ]
  unfolding has_key lookup
  has_key-lookup k [] = refl
  has_key-lookup k ((j, v) ∷ d) = ground (arith, has_key-lookup k d)

  overwrite-metadata :
      (k : String) (m : Dict V) (e : Entity V)
      → IsDict m
      → get_metadata k (overwrite m e) ≡ or_else (lookup k m) (get_metadata k e)
  unfolding overwrite get_metadata lookup update_metadata
  overwrite-metadata k [] e h = refl
  overwrite-metadata k ((j, v) ∷ m) e h = ground (
    arith,
    overwrite-metadata k m (update_metadata j v e) h.1,
    lookup-insert j k v e.metadata,
    eq_iff j k,
    h.0,
  )

  add_each-metadata :
      (k : String) (m : Dict V) (e : Entity V)
      → get_metadata k (add_each m e) ≡ or_else (get_metadata k e) (lookup k m)
  unfolding add_each get_metadata lookup add_metadata
  add_each-metadata k [] e = sym (or_else-none (get_metadata k e))
  add_each-metadata k ((j, v) ∷ m) e = ground (
    arith,
    add_each-metadata k m (add_metadata j v e).1,
    lookup-insert j k v e.metadata,
    eq_iff j k,
    has_key-lookup j e.metadata,
  )

  -- For new metadata in which no key stands twice: with `force` a key has its new value, or the old one if it has no new one; without it, its old
  -- value, or the new one if it had none.
  pub extend_metadata_lem :
      (k : String) (m : Dict V) (force : Bool) (e : Entity V)
      → IsDict m
      → get_metadata k (extend_metadata m force e) ≡ (
          if force
          then or_else (lookup k m) (get_metadata k e)
          else or_else (get_metadata k e) (lookup k m))
  unfolding extend_metadata
  extend_metadata_lem k m true e h = overwrite-metadata k m e h
  extend_metadata_lem k m false e h = add_each-metadata k m e
