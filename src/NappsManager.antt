-- ===== src/NappsManager.antt =====
-- kytos/core/napps/manager.py: `enable`, `disable`, `uninstall` and the lists of NApps. The two
-- folders are what they hold: the `kytos.json` of each installed NApp by its id, in the order of
-- their times, and the ids that are linked. The id in a `kytos.json` is that of its folder. How a uri
-- is read is a parameter, `none` if the regular expression does not match. The calls nest as the
-- dependencies do, and Python raises a RecursionError, a RuntimeError, when they nest too deep: that
-- is what the fuel is.
pub mod Meta
mod Tests
use Prim.Native.String.{◌++◌ as concat}
use kytos.Prelude.{
  ℕ, zero, suc, String, Bool, true, false, not, ◌&&◌, ◌||◌, Option, none, some, List, [], ◌∷◌, ◌++◌,
  str_eq, if◌then◌else◌,
}
use kytos.Errors.{Error, Result, ok, err, key_error, attribute_error, runtime_error}
use kytos.Dict.{Dict, lookup, delete, has_key}

pub record Info : Type 0 where
  pub meta : Bool
  pub napp_dependencies : List String

-- `unloaded`: the calls of `unload_napp` of the controller.
pub record Files : Type 0 where
  pub installed : Dict Info
  pub enabled : List String
  pub unloaded : List (String × String)

abbrev pub id_of : String → String → String
id_of username name = concat username (concat "/" name)

abbrev pub linked : String → List String → Bool
linked id [] = false
linked id (other ∷ ids) = if str_eq other id then true else linked id ids

abbrev pub unlink : String → List String → List String
unlink id [] = []
unlink id (other ∷ ids) = if str_eq other id then ids else other ∷ unlink id ids

unfoldable pub is_enabled : String → String → Files → Bool
unfolding has_key
is_enabled username name f =
    linked (id_of username name) f.enabled && has_key (id_of username name) f.installed

unfoldable pub is_installed : String → String → Files → Bool
unfolding has_key
is_installed username name f = has_key (id_of username name) f.installed

abbrev pub dependencies : Info → List String
dependencies info = if info.meta then info.napp_dependencies else []

module _ (fullname : String → Option (String × String)) where
  abbrev pub when_done :
      Result Bool × Files
      → (Files → Result (String × String) × Files)
      → Result (String × String) × Files
  when_done (err e, f) rest = (err e, f)
  when_done (ok _, f) rest = rest f

  abbrev pub over_one :
      Option (String × String)
      → (String → String → Files → Result Bool × Files)
      → (String × String → Files → Result (String × String) × Files)
      → Files
      → Result (String × String) × Files
  over_one none call rest f = (err attribute_error, f)
  over_one (some (username, name)) call rest f =
      when_done (call username name f) (rest (username, name))

  -- for uri in deps: username, napp_name = ...; call(username, napp_name). The names stay what the last
  -- round has made them.
  abbrev pub over :
      (String → String → Files → Result Bool × Files)
      → List String
      → String × String
      → Files
      → Result (String × String) × Files
  over call [] names f = (ok names, f)
  over call (uri ∷ uris) names f = over_one (fullname uri) call (over call uris) f

  abbrev link_after : String → Result (String × String) × Files → Result Bool × Files
  unfolding has_key
  link_after id (err e, f) = (err e, f)
  link_after id (ok names, f) =
      if has_key id f.installed && not (linked id f.enabled)
      then (ok true, record f { enabled = f.enabled ++ id ∷ [] })
      else (ok true, f)

  abbrev enable_found :
      (String → String → Files → Result Bool × Files)
      → Option Info
      → String
      → String
      → Files
      → Result Bool × Files
  unfolding link_after
  enable_found call none username name f = (err (key_error (id_of username name)), f)
  enable_found call (some info) username name f =
      link_after (id_of username name) (over call (dependencies info) (username, name) f)

  unfoldable pub enable : ℕ → String → String → Files → Result Bool × Files
  unfolding enable_found lookup
  enable zero username name f = (err runtime_error, f)
  enable (suc fuel) username name f =
      enable_found (enable fuel) (lookup (id_of username name) f.installed) username name f

  -- The names are those after the loop, the link is that of the NApp.
  abbrev unlink_after : String → Result (String × String) × Files → Result Bool × Files
  unlink_after id (err e, f) = (err e, f)
  unlink_after id (ok names, f) =
      if linked id f.enabled
      then (
        ok true,
        record f { enabled = unlink id f.enabled; unloaded = f.unloaded ++ names ∷ [] },
      )
      else (ok true, f)

  abbrev disable_found :
      (String → String → Files → Result Bool × Files)
      → Option Info
      → String
      → String
      → Files
      → Result Bool × Files
  disable_found call none username name f = (err (key_error (id_of username name)), f)
  disable_found call (some info) username name f =
      unlink_after (id_of username name) (over call (dependencies info) (username, name) f)

  unfoldable pub disable : ℕ → String → String → Files → Result Bool × Files
  unfolding lookup
  disable zero username name f = (err runtime_error, f)
  disable (suc fuel) username name f =
      disable_found (disable fuel) (lookup (id_of username name) f.installed) username name f

  -- Whether the NApp is installed is asked for the names after the loop.
  abbrev pub remove_after : String → Result (String × String) × Files → Result Bool × Files
  unfolding is_installed
  remove_after id (err e, f) = (err e, f)
  remove_after id (ok (username, name), f) =
      if is_installed username name f
      then (ok true, record f { installed = delete id f.installed })
      else (ok true, f)

  abbrev pub uninstall_found :
      (String → String → Files → Result Bool × Files)
      → Option Info
      → String
      → String
      → Files
      → Result Bool × Files
  unfolding remove_after
  uninstall_found call none username name f = (err (key_error (id_of username name)), f)
  uninstall_found call (some info) username name f =
      remove_after (id_of username name) (over call (dependencies info) (username, name) f)

  unfoldable pub uninstall : ℕ → String → String → Files → Result Bool × Files
  unfolding uninstall_found is_enabled lookup
  uninstall zero username name f = (err runtime_error, f)
  uninstall (suc fuel) username name f =
      if is_enabled username name f
      then (ok false, f)
      else uninstall_found (uninstall fuel) (lookup (id_of username name) f.installed) username name
          f
