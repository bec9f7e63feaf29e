-- ===== src/ApiServer/Tests.antt =====
-- Small inputs of kytos/core/api_server.py; numbers stand for methods and options.
use kytos.Prelude.{ℕ, ◌≡◌, refl, true, false, none, some, List, [], ◌∷◌, ◌++◌}
use kytos.ApiServer.{
  Route, Attribute, method, napp_prefix, authenticate_endpoints, register_rules,
  register_napp_endpoints, remove_napp_endpoints, get_decorated_functions,
}
use kytos.ApiServer.Removed.{left_over, remove_napp_endpoints-register_napp_endpoints}

abbrev pub flows : Attribute ℕ ℕ
flows = record {
  name = "flows";
  decorated = some (record {
    function = 1;
    route_params = ("v2/flows", 10) ∷ ("/v2/flows/{dpid}/", 11) ∷ [];
    route_index = 7;
    is_authenticated = false;
  });
}

abbrev pub index : Attribute ℕ ℕ
index = record {
  name = "index";
  decorated = some (record {
    function = 2;
    route_params = ("/", 12) ∷ [];
    route_index = 3;
    is_authenticated = false;
  });
}

abbrev pub flow_manager : List (Attribute ℕ ℕ)
flow_manager =
    record { name = "_private"; decorated = none }
    ∷ flows
    ∷ record { name = "execute"; decorated = none }
    ∷ index
    ∷ []

abbrev pub status_routes : List (Route ℕ ℕ)
status_routes =
    record { path = "/api/kytos/core/status/"; endpoint = method 0; options = 0; in_schema = true }
    ∷ []

register_napp_endpoints_run :
    register_napp_endpoints "kytos" "flow_manager"
      (authenticate_endpoints ("flow_manager/v2" ∷ []) "kytos" "flow_manager" (index ∷ []))
      []
    ≡ record {
      path = "/api/kytos/flow_manager/";
      endpoint = method 2;
      options = 12;
      in_schema = true;
    }
      ∷ record {
        path = "/api/kytos/flow_manager";
        endpoint = method 2;
        options = 12;
        in_schema = false;
      }
      ∷ []
unfolding register_napp_endpoints authenticate_endpoints register_rules
register_napp_endpoints_run = refl

-- The bare rule is left, and comes first since its method was decorated first.
left_over_run :
    left_over (napp_prefix "kytos" "flow_manager") (get_decorated_functions flow_manager)
    ≡ record {
      path = "/api/kytos/flow_manager";
      endpoint = method 2;
      options = 12;
      in_schema = false;
    }
      ∷ []
unfolding napp_prefix get_decorated_functions
left_over_run = refl

remove_napp_endpoints-register_napp_endpoints_example :
    remove_napp_endpoints "kytos" "flow_manager"
      (register_napp_endpoints "kytos" "flow_manager" flow_manager status_routes)
    ≡ status_routes
      ++ left_over (napp_prefix "kytos" "flow_manager") (get_decorated_functions flow_manager)
unfolding napp_prefix
remove_napp_endpoints-register_napp_endpoints_example =
    remove_napp_endpoints-register_napp_endpoints "kytos" "flow_manager" flow_manager status_routes
      refl
