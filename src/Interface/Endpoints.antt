-- ===== src/Interface/Endpoints.antt =====
-- The endpoints of an interface in kytos/core/interface.py: a list of pairs of an endpoint and the
-- time of its last update. An endpoint is a hardware address or an interface; the text here is what
-- its equality compares.
pub mod Update
mod Tests
use kytos.Prelude.{
  ℕ, String, Bool, true, false, Option, none, some, List, [], ◌∷◌, ◌++◌, str_eq, if◌then◌else◌,
}

abbrev pub Endpoints : Type 0
Endpoints = List (String × ℕ)

unfoldable pub get_endpoint : String → Endpoints → Option (String × ℕ)
get_endpoint endpoint [] = none
get_endpoint endpoint ((other, at) ∷ rest) =
    if str_eq endpoint other then some (other, at) else get_endpoint endpoint rest

abbrev append_unless : Option (String × ℕ) → String → ℕ → Endpoints → Endpoints
append_unless (some exists) endpoint now endpoints = endpoints
append_unless none endpoint now endpoints = endpoints ++ (endpoint, now) ∷ []

unfoldable pub add_endpoint : String → ℕ → Endpoints → Endpoints
unfolding get_endpoint
add_endpoint endpoint now endpoints =
    append_unless (get_endpoint endpoint endpoints) endpoint now endpoints

-- self.endpoints.remove(exists): the first item that is equal to it is the one that was found.
unfoldable pub delete_endpoint : String → Endpoints → Endpoints
delete_endpoint endpoint [] = []
delete_endpoint endpoint ((other, at) ∷ rest) =
    if str_eq endpoint other then rest else (other, at) ∷ delete_endpoint endpoint rest

abbrev delete_if : Option (String × ℕ) → String → Endpoints → Endpoints
delete_if none endpoint endpoints = endpoints
delete_if (some exists) endpoint endpoints = delete_endpoint endpoint endpoints

unfoldable pub update_endpoint : String → ℕ → Endpoints → Endpoints
update_endpoint endpoint now endpoints =
    add_endpoint endpoint now (delete_if (get_endpoint endpoint endpoints) endpoint endpoints)
