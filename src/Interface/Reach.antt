-- ===== src/Interface/Reach.antt =====
-- The calls for VLAN numbers of an interface in kytos/core/interface.py, as steps from the state that
-- `__init__` leaves, and what they mean for the set of allowed tags and the set of tags in use.
pub mod Pools
pub mod Invariant
mod Tests
use kytos.Prelude.{
  ℕ, ◌≤◌, ◌∷◌, ◌≡◌, Bool, true, false, not, ◌&&◌, ◌||◌, Option, none, some, List, [], String,
}
use kytos.Errors.{Named, Result, ok, err, Error}
use kytos.Dict.{lookup}
use kytos.TagRanges.Meaning.{Range, From, covers}
use kytos.TagRanges.Validated.{Tags}
use kytos.Interface.Given.{Given, Request, tags, resolve}
use kytos.Interface.State.{State, TagPool}
use kytos.Interface.UseTags.{use_tags}
use kytos.Interface.UseTags.Taken.{asked}
use kytos.Interface.MakeAvailable.{make_tags_available, as_list}
use kytos.Interface.MakeAvailable.One.{single}
use kytos.Interface.Restrict.{set_tag_ranges, remove_tag_ranges, vlan, default_vlans, new_pool}

-- What a call is to do: take tags, give tags back, replace the allowed tags, or reset them.
pub data Operation : Type 0 where
  take give_back replace : List Range → Operation
  reset : Operation

-- A call that returns, with ordered ranges or one tag from 1 on, and what it is to do; one that raises
-- makes no step.
pub data Step (before : State) : Operation → State → Type 0 where
  took :
      (n : ℕ) (given : Given) (ts : Tags) (after : State)
      → resolve given ≡ ok (tags ts)
      → From n (asked ts)
      → use_tags given vlan before ≡ (ok tt, after)
      → Step before (take (asked ts)) after
  gave :
      (given : Given) (request : Request) (rs : List Range) (conflict : Option Named)
      (after : State)
      → resolve given ≡ ok request
      → as_list request ≡ tags (Tags.ranges rs)
      → From 1 rs
      → make_tags_available given vlan before ≡ (ok conflict, after)
      → Step before (give_back rs) after
  gave_one :
      (given : Given) (request : Request) (t : ℕ) (conflict : Option Named) (after : State)
      → resolve given ≡ ok request
      → as_list request ≡ tags (Tags.range (single t))
      → 1 ≤ t
      → make_tags_available given vlan before ≡ (ok conflict, after)
      → Step before (give_back (single t ∷ [])) after
  restricted_to :
      (rs : List Range) (after : State)
      → From 1 rs
      → set_tag_ranges rs vlan before ≡ (ok tt, after)
      → Step before (replace rs) after
  unrestricted :
      (after : State) → remove_tag_ranges vlan before ≡ (ok tt, after) → Step before reset after

pub data Reachable (id : String) : State → Type 0 where
  start : Reachable id (record { pool = new_pool id; notified = [] })
  next : (s s' : State) (op : Operation) → Reachable id s → Step s op s' → Reachable id s'

abbrev pub listed : Option (List Range) → List Range
listed none = []
listed (some rs) = rs

-- The allowed tags, those that are free, and those in use.
unfoldable pub allowed : State → ℕ → Bool
unfolding lookup
allowed s t = covers (listed (lookup vlan s.pool.tag_ranges)) t

unfoldable pub free : State → ℕ → Bool
unfolding lookup
free s t = covers (listed (lookup vlan s.pool.available_tags)) t

unfoldable pub used : State → ℕ → Bool
unfolding allowed free
used s t = allowed s t && not (free s t)

-- The step on sets for each operation, whatever does it.
abbrev pub SetStep : Operation → (may uses may' uses' : ℕ → Bool) → Type 0
SetStep (take rs) may uses may' uses' =
    ((t : ℕ) → covers rs t ≡ true → (may t && not (uses t)) ≡ true)
    × ((t : ℕ) → may' t ≡ may t)
    × ((t : ℕ) → uses' t ≡ (uses t || covers rs t))
SetStep (give_back rs) may uses may' uses' =
    ((t : ℕ) → covers rs t ≡ true → may t ≡ true)
    × ((t : ℕ) → may' t ≡ may t)
    × ((t : ℕ) → uses' t ≡ (uses t && not (covers rs t)))
SetStep (replace rs) may uses may' uses' =
    ((t : ℕ) → uses t ≡ true → covers rs t ≡ true)
    × ((t : ℕ) → may' t ≡ covers rs t)
    × ((t : ℕ) → uses' t ≡ uses t)
SetStep reset may uses may' uses' =
    ((t : ℕ) → may' t ≡ covers default_vlans t)
    × ((t : ℕ) → uses' t ≡ (covers default_vlans t && uses t))
