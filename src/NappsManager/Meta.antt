-- ===== src/NappsManager/Meta.antt =====
-- What `uninstall` does to a meta-NApp.
use kytos.Prelude.{
  ℕ, suc, ◌≡◌, refl, ◌∙◌, String, true, false, Option, some, [], ◌∷◌, str_eq, eq_iff,
}
use kytos.Errors.{ok}
use kytos.Dict.{lookup, delete, has_key-of_lookup, has_key-delete}
use kytos.NappsManager.{
  Info, Files, id_of, linked, is_enabled, is_installed, dependencies, remove_after, uninstall,
  uninstall_found,
}

str_eq_refl : (s : String) → str_eq s s ≡ true
str_eq_refl s = (eq_iff s s).1 refl

module _ (fullname : String → Option (String × String)) where
  abbrev pub without : String → String → Files → Files
  unfolding delete
  without username name f = record f { installed = delete (id_of username name) f.installed }

  without-is_installed :
      (username name : String) (f : Files)
      → is_installed username name (without username name f) ≡ false
  unfolding is_installed without
  without-is_installed username name f =
      has_key-delete (id_of username name) (id_of username name) f.installed
      ∙ rw (str_eq_refl (id_of username name)) refl

  -- A NApp that needs no others and is not in use is removed.
  plain_run :
      (fuel : ℕ) (username name : String) (info : Info) (f : Files)
      → lookup (id_of username name) f.installed ≡ some info
      → dependencies info ≡ []
      → linked (id_of username name) f.enabled ≡ false
      → uninstall fullname (suc fuel) username name f ≡ (ok true, without username name f)
  unfolding uninstall is_enabled uninstall_found remove_after is_installed without
  plain_run fuel username name info f there plain unused = rw unused (
      rw there
        (rw plain (rw (has_key-of_lookup (id_of username name) info f.installed there) refl)))

  meta_run :
      (fuel : ℕ) (username name uri dep_username dep_name : String) (info : Info) (f f' : Files)
      → lookup (id_of username name) f.installed ≡ some info
      → dependencies info ≡ uri ∷ []
      → linked (id_of username name) f.enabled ≡ false
      → fullname uri ≡ some (dep_username, dep_name)
      → uninstall fullname fuel dep_username dep_name f ≡ (ok true, f')
      → is_installed dep_username dep_name f' ≡ false
      → uninstall fullname (suc fuel) username name f ≡ (ok true, f')
  unfolding uninstall is_enabled uninstall_found remove_after
  meta_run fuel username name uri dep_username dep_name info f f' there needs unused reads runs
        gone =
      rw unused (rw there (rw needs (rw reads (rw runs (rw gone refl)))))

  -- If a meta-NApp that needs one other NApp, which needs none, is uninstalled, and neither is in
  -- use, then the call answers True and the other NApp is removed, but the meta-NApp is still
  -- installed.
  pub uninstall_lem :
      (fuel : ℕ) (username name uri dep_username dep_name : String) (info dep_info : Info)
      (f : Files)
      → lookup (id_of username name) f.installed ≡ some info
      → dependencies info ≡ uri ∷ []
      → fullname uri ≡ some (dep_username, dep_name)
      → lookup (id_of dep_username dep_name) f.installed ≡ some dep_info
      → dependencies dep_info ≡ []
      → linked (id_of username name) f.enabled ≡ false
      → linked (id_of dep_username dep_name) f.enabled ≡ false
      → str_eq (id_of dep_username dep_name) (id_of username name) ≡ false
      → (f' : Files) × (uninstall fullname (suc (suc fuel)) username name f ≡ (ok true, f'))
        × (is_installed dep_username dep_name f' ≡ false)
        × (is_installed username name f' ≡ true)
  uninstall_lem fuel username name uri dep_username dep_name info dep_info f there needs reads
        dep_there plain unused dep_unused other =
      (
        without dep_username dep_name f,
        meta_run (suc fuel) username name uri dep_username dep_name info f
            (without dep_username dep_name f) there needs unused reads
            (plain_run fuel dep_username dep_name dep_info f dep_there plain dep_unused)
            (without-is_installed dep_username dep_name f),
        without-is_installed dep_username dep_name f,
        still_there,
      )
    where
      still_there : is_installed username name (without dep_username dep_name f) ≡ true
      still_there =
          unfold is_installed in
          unfold without in
          (has_key-delete (id_of dep_username dep_name) (id_of username name) f.installed
            ∙ rw other (has_key-of_lookup (id_of username name) info f.installed there))
