-- ===== src/Entity.antt =====
-- kytos/core/common.py: `EntityStatus` and `GenericEntity`; and the `status` that
-- kytos/core/interface.py, link.py and switch.py put over it.
pub mod Status
pub mod Metadata
mod Tests
use kytos.Prelude.{
  String, Bool, true, false, not, ◌&&◌, Option, some, none, List, [], ◌∷◌, ◌++◌, if◌then◌else◌,
}
use kytos.Dict.{Dict, lookup, insert, delete, has_key}

pub data EntityStatus : Type 0 where
  up disabled down : EntityStatus

-- `V` is the type of the values in the metadata.
pub record Entity (V : Type 0) : Type 0 where
  pub metadata : Dict V
  pub active : Bool
  pub enabled : Bool

module _ {V : Type 0} where
  -- `enable_entities_by_default` is an option of the daemon.
  unfoldable pub new_entity : Bool → Entity V
  new_entity enabled_by_default = record {
    metadata = [];
    active = true;
    enabled = enabled_by_default;
  }

  unfoldable pub activate : Entity V → Entity V
  activate e = record e { active = true }

  unfoldable pub deactivate : Entity V → Entity V
  deactivate e = record e { active = false }

  unfoldable pub enable : Entity V → Entity V
  enable e = record e { enabled = true }

  unfoldable pub disable : Entity V → Entity V
  disable e = record e { enabled = false }

  -- A method that returns a Boolean returns it with the new object.
  unfoldable pub add_metadata : String → V → Entity V → Bool × Entity V
  add_metadata key value e =
      if has_key key e.metadata
      then (false, e)
      else (true, record e { metadata = insert key value e.metadata })

  unfoldable pub remove_metadata : String → Entity V → Bool × Entity V
  remove_metadata key e =
      if has_key key e.metadata
      then (true, record e { metadata = delete key e.metadata })
      else (false, e)

  unfoldable pub get_metadata : String → Entity V → Option V
  get_metadata key e = lookup key e.metadata

  unfoldable pub update_metadata : String → V → Entity V → Entity V
  update_metadata key value e = record e { metadata = insert key value e.metadata }

  unfoldable pub clear_metadata : Entity V → Entity V
  clear_metadata e = record e { metadata = [] }

  -- self.metadata.update(metadatas)
  overwrite : Dict V → Entity V → Entity V
  overwrite [] e = e
  overwrite ((key, value) ∷ more) e = overwrite more (update_metadata key value e)

  add_each : Dict V → Entity V → Entity V
  add_each [] e = e
  add_each ((key, value) ∷ more) e = add_each more (add_metadata key value e).1

  unfoldable pub extend_metadata : Dict V → Bool → Entity V → Entity V
  unfolding overwrite add_each
  extend_metadata metadatas force e = if force then overwrite metadatas e else add_each metadatas e

-- `status` of the base class, by what `is_enabled()` and `is_active()` of the object return.
unfoldable pub base_status : Bool → Bool → EntityStatus
base_status enabled active =
    if enabled && active then up else if not enabled then disabled else down

unfoldable pub status_reason : Bool → Bool → List String
status_reason enabled active =
    (if enabled then [] else "disabled" ∷ []) ++ (if active then [] else "deactivated" ∷ [])

-- for status_func in self.status_funcs.values(): the first that says DOWN decides.
unfoldable pub check_funcs {ℓ} :
    {A : Type ℓ} → EntityStatus → List (A → EntityStatus) → A → EntityStatus
check_funcs state [] self = state
check_funcs state (f ∷ fs) self =
    let rest = check_funcs state fs self in elim (f self) [ down ↦ down | _ ↦ rest ]

-- `status` of an interface, a link or a switch, with the registered functions.
unfoldable pub status {ℓ} : {A : Type ℓ} → Bool → Bool → List (A → EntityStatus) → A → EntityStatus
unfolding check_funcs
status enabled active funcs self = elim (base_status enabled active) [
  | disabled ↦ disabled
  | state ↦ check_funcs state funcs self
]
