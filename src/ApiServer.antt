-- ===== src/ApiServer.antt =====
-- kytos/core/api_server.py: the routes of the NApps. The router of starlette keeps the routes in the
-- order in which they are added. `F` is the type of the methods, `O` that of the options that
-- `@rest` takes besides the rule.
pub mod Text
pub mod Removed
pub mod Tests
use Prim.Native.String.{[] as empty, ◌∷◌ as cons, ◌++◌ as append}
use kytos.Prelude.{
  ℕ, String, Bool, true, false, ◌||◌, Option, none, some, List, [], ◌∷◌, ◌++◌, ltb, str_eq,
  if◌then◌else◌,
}
use kytos.ApiServer.Text.{
  starts_with, is_root, ends_with_slash, without_last, without_first_slash, contains,
}

-- A method, or what `authenticated` makes of one.
pub data Endpoint (F : Type 0) : Type 0 where
  method : F → Endpoint F
  authenticated : Endpoint F → Endpoint F

pub record Route (F : Type 0) (O : Type 0) : Type 0 where
  pub path : String
  pub endpoint : Endpoint F
  pub options : O
  pub in_schema : Bool

-- A method that `@rest` decorates.
pub record Decorated (F : Type 0) (O : Type 0) : Type 0 where
  pub function : F
  pub route_params : List (String × O)
  pub route_index : ℕ
  pub is_authenticated : Bool

-- An attribute of a NApp; `none` if it is not a decorated method.
pub record Attribute (F : Type 0) (O : Type 0) : Type 0 where
  pub name : String
  pub decorated : Option (Decorated F O)

-- "/api/{napp.username}/{napp.name}/"
unfoldable pub napp_prefix : String → String → String
napp_prefix username name = append "/api/" (append username (append "/" (append name "/")))

unfoldable pub get_absolute_rule : String → String → String
get_absolute_rule rule prefix = append prefix (without_first_slash rule)

abbrev pub non_strict : String → String
non_strict route = if ends_with_slash route then without_last route else append route "/"

-- A function with several rules is wrapped again for each of them.
abbrev pub wrapped : {F : Type 0} → Bool → Endpoint F → Endpoint F
wrapped is_authenticated function = if is_authenticated then authenticated function else function

abbrev pub marked : List String → String → Bool
marked [] rule = false
marked (url ∷ urls) rule = contains url rule || marked urls rule

abbrev pub any_marked : {O : Type 0} → List String → String → List (String × O) → Bool
unfolding get_absolute_rule
any_marked urls prefix [] = false
any_marked urls prefix ((rule, options) ∷ rules) =
    marked urls (get_absolute_rule rule prefix) || any_marked urls prefix rules

module _ {F O : Type 0} where
  abbrev pub public_one :
      Attribute F O → Option (Decorated F O) → List (Decorated F O) → List (Decorated F O)
  public_one attribute none others = others
  public_one attribute (some d) others =
      if starts_with "_" attribute.name then others else d ∷ others

  abbrev pub callables : List (Attribute F O) → List (Decorated F O)
  callables [] = []
  callables (a ∷ attributes) = public_one a a.decorated (callables attributes)

  abbrev pub in_order : Decorated F O → List (Decorated F O) → List (Decorated F O)
  in_order d [] = d ∷ []
  in_order d (e ∷ rest) =
      if ltb e.route_index d.route_index then e ∷ in_order d rest else d ∷ e ∷ rest

  abbrev pub sorted : List (Decorated F O) → List (Decorated F O)
  sorted [] = []
  sorted (d ∷ rest) = in_order d (sorted rest)

  -- The attributes are in the order of `dir`.
  unfoldable pub get_decorated_functions : List (Attribute F O) → List (Decorated F O)
  get_decorated_functions attributes = sorted (callables attributes)

  unfoldable pub add_non_strict_slash_route :
      String → Endpoint F → O → List (Route F O) → List (Route F O)
  add_non_strict_slash_route route function options routes =
      if is_root route
      then routes
      else routes
        ++ record {
          path = non_strict route;
          endpoint = function;
          options = options;
          in_schema = false;
        }
          ∷ []

  unfoldable pub start_endpoint : String → Endpoint F → O → List (Route F O) → List (Route F O)
  unfolding add_non_strict_slash_route
  start_endpoint route function options routes = add_non_strict_slash_route route function options (
      routes
      ++ record { path = route; endpoint = function; options = options; in_schema = true } ∷ [])

  abbrev pub register_rules :
      String → Bool → List (String × O) → Endpoint F → List (Route F O) → List (Route F O)
  unfolding get_absolute_rule start_endpoint
  register_rules prefix auth [] function routes = routes
  register_rules prefix auth ((rule, options) ∷ rules) function routes =
      register_rules prefix auth rules (wrapped auth function)
        (start_endpoint (get_absolute_rule rule prefix) (wrapped auth function) options routes)

  abbrev pub register_each : String → List (Decorated F O) → List (Route F O) → List (Route F O)
  register_each prefix [] routes = routes
  register_each prefix (d ∷ rest) routes =
      register_each prefix rest
        (register_rules prefix d.is_authenticated d.route_params (method d.function) routes)

  unfoldable pub register_napp_endpoints :
      String → String → List (Attribute F O) → List (Route F O) → List (Route F O)
  unfolding napp_prefix get_decorated_functions
  register_napp_endpoints username name attributes routes =
      register_each (napp_prefix username name) (get_decorated_functions attributes) routes

  -- The routes at the indexes that were found are popped.
  abbrev pub without_prefix : String → List (Route F O) → List (Route F O)
  without_prefix prefix [] = []
  without_prefix prefix (r ∷ routes) =
      if starts_with prefix r.path
      then without_prefix prefix routes
      else r ∷ without_prefix prefix routes

  unfoldable pub remove_napp_endpoints : String → String → List (Route F O) → List (Route F O)
  unfolding napp_prefix
  remove_napp_endpoints username name routes = without_prefix (napp_prefix username name) routes

  abbrev pub mark : List String → String → Option (Decorated F O) → Option (Decorated F O)
  mark urls prefix none = none
  mark urls prefix (some d) =
      some (record d { is_authenticated = any_marked urls prefix d.route_params })

  abbrev pub mark_one : List String → String → Attribute F O → Attribute F O
  mark_one urls prefix a =
      if starts_with "_" a.name then a else record a { decorated = mark urls prefix a.decorated }

  abbrev pub mark_each : List String → String → List (Attribute F O) → List (Attribute F O)
  mark_each urls prefix [] = []
  mark_each urls prefix (a ∷ attributes) = mark_one urls prefix a ∷ mark_each urls prefix attributes

  -- `urls` is the option `authenticate_urls`. The functions are those of the NApp's class, one for
  -- each name.
  unfoldable pub authenticate_endpoints :
      List String → String → String → List (Attribute F O) → List (Attribute F O)
  unfolding napp_prefix
  authenticate_endpoints urls username name attributes =
      mark_each urls (napp_prefix username name) attributes
