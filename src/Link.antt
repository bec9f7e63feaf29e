-- ===== src/Link.antt =====
-- kytos/core/link.py: the tags of a link, its creation and its status. The pools of the two endpoints are two
-- objects; the locks are not modelled.
pub mod Tags
pub mod Endpoints
mod Tests
use kytos.Prelude.{
  ℕ, String, Bool, true, false, ◌&&◌, Option, none, some, List, [], ◌∷◌, str_eq, if◌then◌else◌,
}
use kytos.Ids.{InterfaceId, LinkId, link_id}
use kytos.Errors.{link_creation_error, Named, Result, ok, err, no_tag_available}
use kytos.Entity.{EntityStatus, status}
use kytos.Dict.{Dict, lookup}
use kytos.Entity.{EntityStatus, status, Entity}
use kytos.TagRanges.{range_intersection}
use kytos.TagRanges.Meaning.{Range}
use kytos.Interface.State.{TagPool, State, found}
use kytos.Interface.Given.{Given, number}
use kytos.Interface.UseTags.{use_tags}
use kytos.Interface.MakeAvailable.{make_tags_available}
use kytos.Interface.Restrict.{is_tag_available, vlan}

pub record LinkState : Type 0 where
  pub pool_a : TagPool
  pub pool_b : TagPool
  pub notified : List String

abbrev pub LinkAction : Type 0 → Type 0
LinkAction A = LinkState → Result A × LinkState

-- A method of an endpoint.
abbrev pub on_a : {A : Type 0} → (State → Result A × State) → LinkAction A
on_a m s =
    let (r, s') = m (record { pool = s.pool_a; notified = s.notified }) in
    (r, record s { pool_a = s'.pool; notified = s'.notified })

abbrev pub on_b : {A : Type 0} → (State → Result A × State) → LinkAction A
on_b m s =
    let (r, s') = m (record { pool = s.pool_b; notified = s.notified }) in
    (r, record s { pool_b = s'.pool; notified = s'.notified })

module _ {Found Value : Type 0} where
  abbrev pub and_then : Result Found → (Found → LinkAction Value) → LinkAction Value
  and_then (err exception) rest now = (err exception, now)
  and_then (ok found) rest now = rest found now

  infixl 5 ◌>>=◌
  abbrev pub ◌>>=◌ : (call : LinkAction Found) (rest : Found → LinkAction Value) → LinkAction Value
  (call >>= rest) before = let (out, after) = call before in and_then out rest after

  infixl 5 ◌>>◌
  abbrev pub ◌>>◌ : (call : LinkAction Found) (rest : LinkAction Value) → LinkAction Value
  (call >> rest) before = let (out, after) = call before in and_then out (λ _. rest) after

abbrev pub pure : {A : Type 0} → A → LinkAction A
pure a s = (ok a, s)

-- The available tags of both endpoints under a tag type.
abbrev pub both_available : String → LinkAction (List Range × List Range)
both_available tag_type = do
  as' ← (λ s. (found tag_type (lookup tag_type s.pool_a.available_tags), s))
  bs ← (λ s. (found tag_type (lookup tag_type s.pool_b.available_tags), s))
  pure (as', bs)

unfoldable pub available_tags : String → LinkAction (List Range)
available_tags tag_type = do both ← both_available tag_type; pure (range_intersection both.0 both.1)

-- `and` stops at the first endpoint if the tag is not available there.
abbrev and_also : Bool → LinkAction Bool → LinkAction Bool
and_also true m = m
and_also false m = pure false

unfoldable pub is_tag_available_in_both : ℕ → String → LinkAction Bool
is_tag_available_in_both tag tag_type = do
  in_a ← on_a (is_tag_available tag tag_type)
  and_also in_a (on_b (is_tag_available tag tag_type))

-- The first value of the generator is used from both endpoints; no value is StopIteration. The
-- calls of `use_tags` leave out the tag type, which is then "vlan".
abbrev use_first : List Range → LinkAction ℕ
use_first [] s = (err no_tag_available, s)
use_first (r ∷ rs) s =
    (do on_a (use_tags (number r.lo) vlan); on_b (use_tags (number r.lo) vlan); pure r.lo) s

unfoldable pub get_next_available_tag : String → LinkAction ℕ
get_next_available_tag tag_type = do
  both ← both_available tag_type
  use_first (range_intersection both.0 both.1)

unfoldable pub make_link_tags_available : Given → String → LinkAction (Option Named × Option Named)
make_link_tags_available tags tag_type = do
  conflict_a ← on_a (make_tags_available tags tag_type)
  conflict_b ← on_b (make_tags_available tags tag_type)
  pure (conflict_a, conflict_b)

-- An endpoint, as the status of a link sees it.
pub record Endpoint : Type 0 where
  pub id : InterfaceId
  pub enabled : Bool
  pub active : Bool

pub record Link : Type 0 where
  pub id : LinkId
  pub endpoint_a : Endpoint
  pub endpoint_b : Endpoint
  pub enabled : Bool
  pub active : Bool

module _ (sha256 : String → String) (text : InterfaceId → String) (enabled_by_default : Bool) where
  -- interfaces[0] == endpoint_b.id compares the two as texts.
  abbrev ends : LinkId → Endpoint → Endpoint → Endpoint × Endpoint
  ends id a b = if str_eq (text id.interfaces.0) (text b.id) then (b, a) else (a, b)

  abbrev pub with_ends : LinkId → Endpoint × Endpoint → Link
  with_ends id (a, b) = record {
    id = id;
    endpoint_a = a;
    endpoint_b = b;
    enabled = enabled_by_default;
    active = true;
  }

  -- `__init__`
  unfoldable pub new_link : Option Endpoint → Option Endpoint → Result Link
  new_link none b = err link_creation_error
  new_link (some a) none = err link_creation_error
  new_link (some a) (some b) =
      let id = link_id sha256 text a.id b.id in ok (with_ends id (ends id a b))

unfoldable pub is_enabled : Link → Bool
is_enabled l = l.enabled && (l.endpoint_a.enabled && l.endpoint_b.enabled)

unfoldable pub is_active : Link → Bool
is_active l = l.active && (l.endpoint_a.active && l.endpoint_b.active)

-- `status` of a link, with the functions that were registered.
unfoldable pub link_status : List (Link → EntityStatus) → Link → EntityStatus
link_status funcs l = status (is_enabled l) (is_active l) funcs l
