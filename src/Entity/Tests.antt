-- ===== src/Entity/Tests.antt =====
-- Small inputs of kytos/core/common.py.
use kytos.Prelude.{ℕ, ◌≡◌, ◌↔◌, true, false, [], ◌∷◌}
use kytos.Dict.{Dict}
use kytos.Entity.{EntityStatus, up, disabled, down, Entity, status}
use kytos.Entity.Status.{NoneDown, status_lem}

abbrev fibre : Entity ℕ
fibre = record { metadata = ("owner", 1) ∷ []; active = true; enabled = true }

abbrev news : Dict ℕ
news = ("owner", 2) ∷ ("cost", 3) ∷ []

abbrev always_down : ℕ → EntityStatus
always_down n = down

status_example :
    (status true true (always_down ∷ []) 4 ≡ up
      ↔ (true ≡ true) × (true ≡ true) × NoneDown (always_down ∷ []) 4)
    × (status true true (always_down ∷ []) 4 ≡ disabled ↔ true ≡ false)
status_example = status_lem true true (always_down ∷ []) 4
