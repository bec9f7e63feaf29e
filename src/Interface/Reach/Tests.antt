-- ===== src/Interface/Reach/Tests.antt =====
-- A circuit on a new interface whose tags are restricted.
use kytos.Prelude.{ℕ, ◌≡◌, refl, List, [], ◌∷◌}
use kytos.Errors.{ok}
use kytos.TagRanges.Meaning.{Range}
use kytos.TagRanges.Validated.{tag, listed, Tags}
use kytos.Interface.State.{State}
use kytos.Interface.Given.{Given, raw, resolve, tags}
use kytos.Interface.Restrict.{new_pool, vlan}
use kytos.Interface.Restrict.Effects.{restricted}
use kytos.Interface.UseTags.Taken.{with_available}
use kytos.Interface.UseTags.Effects.{announced}

abbrev r : ℕ → ℕ → Range
r lo hi = record { lo = lo; hi = hi }

abbrev port : State
port = record { pool = new_pool "s1:1"; notified = [] }

abbrev some_tags : List Range
some_tags = r 100 200 ∷ []

abbrev restricted_port : State
restricted_port = restricted vlan some_tags some_tags port

abbrev given : Given
given = raw (listed 110 120 ∷ tag 130 ∷ [])

abbrev busy_port : State
busy_port = announced (with_available vlan (r 100 109 ∷ r 121 129 ∷ r 131 200 ∷ []) restricted_port)

abbrev resolve_run : resolve given ≡ ok (tags (Tags.ranges (r 110 120 ∷ r 130 130 ∷ [])))
unfolding resolve
resolve_run = refl
