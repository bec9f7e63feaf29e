-- ===== src/Interface/Endpoints/Tests.antt =====
-- Small inputs of the endpoints.
use kytos.Prelude.{◌≡◌, refl, [], ◌∷◌}
use kytos.Interface.Endpoints.{Endpoints, add_endpoint, delete_endpoint, update_endpoint}

abbrev known : Endpoints
known = ("a", 1) ∷ ("b", 2) ∷ ("c", 3) ∷ []

update_endpoint_run : update_endpoint "b" 9 known ≡ ("a", 1) ∷ ("c", 3) ∷ ("b", 9) ∷ []
unfolding update_endpoint add_endpoint delete_endpoint
update_endpoint_run = refl
