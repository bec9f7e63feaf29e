-- ===== src/ApiServer/Removed.antt =====
-- What is left of the routes of a NApp when they are removed.
use Prim.Native.Char.{Char}
use Prim.Native.String.append
use Prim.Native.String.{[] as empty, ◌∷◌ as cons, ◌++◌ as concat}
use text.Mathlib.TextLemmas.{append-nil as text_append-nil, append_assoc as text_append_assoc}
use mathlib.Core.List.{append-nil, append_assoc}
use kytos.Prelude.{
  ◌≡◌, refl, ap, sym, subst, ◌∙◌, String, Bool, true, false, List, [], ◌∷◌, ◌++◌, if◌then◌else◌,
  arith, Bool-cases, inl, inr,
}
use kytos.ApiServer.Text.{
  starts_with, is_root, ends_with_slash, without_last, without_first_slash, starts_with-append,
  starts_with-without_last, without_last-append, ends_with_slash-append,
}
use kytos.ApiServer.{
  Route, Decorated, Endpoint, Attribute, method, napp_prefix, get_absolute_rule, non_strict,
  wrapped, start_endpoint, add_non_strict_slash_route, register_rules, register_each,
  register_napp_endpoints, without_prefix, remove_napp_endpoints, get_decorated_functions,
}

-- The prefix of a NApp is no shorter than two characters and ends with a slash.
pub record Prefix (p : String) : Type 0 where
  pub first : Char
  pub second : Char
  pub others : String
  pub is_long : p ≡ cons first (cons second others)
  pub ends : ends_with_slash p ≡ true

slash_last :
    (front back : String) → ends_with_slash back ≡ true → ends_with_slash (concat front back) ≡ true
slash_last front empty h = cc
slash_last front (cons c back) h = ends_with_slash-append front c back ∙ h

napp_prefix-Prefix : (username name : String) → Prefix (napp_prefix username name)
unfolding napp_prefix
napp_prefix-Prefix username name = record {
  first = "/";
  second = "a";
  others = concat "pi/" (concat username (concat "/" (concat name "/")));
  is_long = append.cons "/" "api/" _ ∙ ap (cons "/") (append.cons "a" "pi/" _);
  ends = slash_last "/api/" (concat username (concat "/" (concat name "/"))) (
      slash_last username (concat "/" (concat name "/"))
        (slash_last "/" (concat name "/") (slash_last name "/" refl)));
}

not_root : (p relative : String) → Prefix p → is_root (concat p relative) ≡ false
not_root p relative h =
    ap (λ q. is_root (concat q relative)) h.is_long ∙ rw append.cons (rw append.cons refl)

starts_with_self : (p : String) → starts_with p p ≡ true
starts_with_self p = sym (ap (starts_with p) (text_append-nil p)) ∙ starts_with-append p empty

not_within : (p : String) → Prefix p → starts_with p (without_last p) ≡ false
not_within p h =
    subst (λ q. starts_with q (without_last q) ≡ false) (sym h.is_long)
      (starts_with-without_last h.first (cons h.second h.others))

-- The other spelling of a rule that is not bare.
within :
    (p : String) (c : Char) (relative : String)
    → starts_with p (non_strict (concat p (cons c relative))) ≡ true
within p c relative = elim (Bool-cases (ends_with_slash (concat p (cons c relative)))) [
  | inl e ↦ rw e (rw (without_last-append p c relative) (starts_with-append p _))
  | inr e ↦ rw e (rw (text_append_assoc p (cons c relative) "/") (starts_with-append p _))
]

module _ {F O : Type 0} where
  without_prefix-append :
      (p : String) (xs ys : List (Route F O))
      → without_prefix p (xs ++ ys) ≡ without_prefix p xs ++ without_prefix p ys
  without_prefix-append p [] ys = refl
  without_prefix-append p (r ∷ xs) ys = ground (arith, without_prefix-append p xs ys)

  abbrev alias : String → Endpoint F → O → Route F O
  alias path function options = record {
    path = path;
    endpoint = function;
    options = options;
    in_schema = false;
  }

  -- The route of a rule that the prefix does not match: that of the bare prefix without its slash.
  abbrev left_one : String → String → Endpoint F → O → List (Route F O)
  left_one p empty function options = alias (without_last p) function options ∷ []
  left_one p (cons c relative) function options = []

  abbrev left_rules : String → Bool → List (String × O) → Endpoint F → List (Route F O)
  left_rules p auth [] function = []
  left_rules p auth ((rule, options) ∷ rules) function =
      left_one p (without_first_slash rule) (wrapped auth function) options
      ++ left_rules p auth rules (wrapped auth function)

  abbrev pub left_over : String → List (Decorated F O) → List (Route F O)
  left_over p [] = []
  left_over p (d ∷ rest) =
      left_rules p d.is_authenticated d.route_params (method d.function) ++ left_over p rest

  -- The two routes of one rule.
  spelled : String → String → Endpoint F → O → List (Route F O)
  spelled p relative function options =
      record { path = concat p relative; endpoint = function; options = options; in_schema = true }
      ∷ alias (non_strict (concat p relative)) function options
      ∷ []

  one_removed :
      (p relative : String) (function : Endpoint F) (options : O)
      → Prefix p
      → without_prefix p (spelled p relative function options)
        ≡ left_one p relative function options
  unfolding spelled
  one_removed p empty function options h =
      rw (text_append-nil p) (rw (starts_with_self p) (rw h.ends (rw (not_within p h) refl)))
  one_removed p (cons c relative) function options h =
      rw (starts_with-append p (cons c relative)) (rw (within p c relative) refl)

  start_endpoint-spelled :
      (p rule : String) (function : Endpoint F) (options : O) (routes : List (Route F O))
      → Prefix p
      → start_endpoint (get_absolute_rule rule p) function options routes
        ≡ routes ++ spelled p (without_first_slash rule) function options
  unfolding start_endpoint add_non_strict_slash_route get_absolute_rule spelled
  start_endpoint-spelled p rule function options routes h =
      rw (not_root p (without_first_slash rule) h) (append_assoc routes _ _)

  rule_removed :
      (p rule : String) (function : Endpoint F) (options : O) (routes : List (Route F O))
      → Prefix p
      → without_prefix p (start_endpoint (get_absolute_rule rule p) function options routes)
        ≡ without_prefix p routes ++ left_one p (without_first_slash rule) function options
  rule_removed p rule function options routes h =
      ap (without_prefix p) (start_endpoint-spelled p rule function options routes h)
      ∙ without_prefix-append p routes _
      ∙ ap (λ l. without_prefix p routes ++ l)
          (one_removed p (without_first_slash rule) function options h)

  rules_removed :
      (p : String) (auth : Bool) (rules : List (String × O)) (function : Endpoint F)
      (routes : List (Route F O))
      → Prefix p
      → without_prefix p (register_rules p auth rules function routes)
        ≡ without_prefix p routes ++ left_rules p auth rules function
  unfolding register_rules
  rules_removed p auth [] function routes h = sym (append-nil (without_prefix p routes))
  rules_removed p auth ((rule, options) ∷ rules) function routes h =
      rules_removed p auth rules (wrapped auth function) _ h
      ∙ ap (λ l. l ++ left_rules p auth rules (wrapped auth function))
          (rule_removed p rule (wrapped auth function) options routes h)
      ∙ append_assoc (without_prefix p routes) _ _

  each_removed :
      (p : String) (functions : List (Decorated F O)) (routes : List (Route F O))
      → Prefix p
      → without_prefix p (register_each p functions routes)
        ≡ without_prefix p routes ++ left_over p functions
  each_removed p [] routes h = sym (append-nil (without_prefix p routes))
  each_removed p (d ∷ rest) routes h =
      each_removed p rest _ h
      ∙ ap (λ l. l ++ left_over p rest)
          (rules_removed p d.is_authenticated d.route_params (method d.function) routes h)
      ∙ append_assoc (without_prefix p routes) _ _

  -- No route that was there has a path under the prefix of the NApp.
  abbrev pub none_within : String → List (Route F O) → Bool
  none_within p [] = true
  none_within p (r ∷ routes) = if starts_with p r.path then false else none_within p routes

  without_prefix_none :
      (p : String) (routes : List (Route F O))
      → none_within p routes ≡ true
      → without_prefix p routes ≡ routes
  without_prefix_none p [] h = refl
  without_prefix_none p (r ∷ routes) h = ground (arith, without_prefix_none p routes)

  -- If no route under the prefix of a NApp is there, then to register the endpoints of the NApp and
  -- to remove them gives back the routes, but for those of its rules that are empty or one slash:
  -- their second spelling, which is the prefix without its slash, stays behind them, in the order of
  -- the rules and wrapped as the endpoint is.
  pub remove_napp_endpoints-register_napp_endpoints :
      (username name : String) (attributes : List (Attribute F O)) (routes : List (Route F O))
      → none_within (napp_prefix username name) routes ≡ true
      → remove_napp_endpoints username name
          (register_napp_endpoints username name attributes routes)
        ≡ routes ++ left_over (napp_prefix username name) (get_decorated_functions attributes)
  unfolding remove_napp_endpoints register_napp_endpoints
  remove_napp_endpoints-register_napp_endpoints username name attributes routes h =
      each_removed (napp_prefix username name) (get_decorated_functions attributes) routes
        (napp_prefix-Prefix username name)
      ∙ ap (λ l. l ++ left_over (napp_prefix username name) (get_decorated_functions attributes))
          (without_prefix_none (napp_prefix username name) routes h)
