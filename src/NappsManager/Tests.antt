-- ===== src/NappsManager/Tests.antt =====
-- A meta-NApp and the NApp that it needs.
use kytos.Prelude.{
  ◌≡◌, refl, String, true, false, Option, none, some, [], ◌∷◌, str_eq, if◌then◌else◌,
}
use kytos.Errors.{ok}
use kytos.Dict.{lookup}
use kytos.NappsManager.{Info, Files, enable, disable, uninstall, is_installed}
use kytos.NappsManager.Meta.{uninstall_lem}

abbrev fullname : String → Option (String × String)
fullname uri = if str_eq uri "kytos/of_core" then some ("kytos", "of_core") else none

abbrev suite : Info
suite = record { meta = true; napp_dependencies = "kytos/of_core" ∷ [] }

abbrev of_core : Info
of_core = record { meta = false; napp_dependencies = [] }

abbrev files : Files
files = record {
  installed = ("kytos/suite", suite) ∷ ("kytos/of_core", of_core) ∷ [];
  enabled = [];
  unloaded = [];
}

enable_run :
    enable fullname 2 "kytos" "suite" files
    ≡ (ok true, record files { enabled = "kytos/of_core" ∷ "kytos/suite" ∷ [] })
unfolding enable
enable_run = refl

-- The controller is told to unload the dependency twice, and never the meta-NApp.
disable_run :
    disable fullname 2 "kytos" "suite"
      (record files { enabled = "kytos/of_core" ∷ "kytos/suite" ∷ [] })
    ≡ (ok true, record files { unloaded = ("kytos", "of_core") ∷ ("kytos", "of_core") ∷ [] })
unfolding disable
disable_run = refl

uninstall_example :
    (f' : Files) × (uninstall fullname 2 "kytos" "suite" files ≡ (ok true, f'))
    × (is_installed "kytos" "of_core" f' ≡ false)
    × (is_installed "kytos" "suite" f' ≡ true)
unfolding lookup
uninstall_example =
    uninstall_lem fullname 0 "kytos" "suite" "kytos/of_core" "kytos" "of_core" suite of_core files
      refl refl refl refl refl refl refl refl
