-- ===== src/NappBase/Tests.antt =====
-- Small inputs of kytos/core/napps/base.py.
use kytos.Prelude.{
  inl, inr, Bool-cases, if◌then◌else◌, ◌≤◌, ℕ, ◌-◌, ◌≡◌, refl, String, true, none, some, List, [],
  ◌∷◌, ◌==◌, arith,
}
use kytos.Dict.{lookup, distinct_keys}
use kytos.Events.{pos}
use kytos.Controller.Napps.{shutdown_event}
use kytos.NappBase.{new_napp, package_url, build_listeners, run, Executed, done, exception}
use kytos.NappBase.Listeners.{build_listeners_lem}
use kytos.NappBase.Loop.{HasEnded, run_lem}

package_url_run :
    (package_url
        (new_napp (some "kytos") (some "pathfinder") none (some "https://napps.kytos.io/repo"))
      ≡ "https://napps.kytos.io/repo/kytos/pathfinder-latest.napp")
    × (package_url (new_napp (some "kytos") (some "pathfinder") none none) ≡ "")
unfolding package_url new_napp
package_url_run = (refl, refl)

-- A method that listens to the shutdown too, and to an event that another method listens to.
abbrev methods : List (ℕ × List String)
methods =
    (1, "kytos/core.shutdown" ∷ "kytos/core.switch.new" ∷ [])
    ∷ (2, "kytos/core.switch.new" ∷ [])
    ∷ []

build_listeners_example :
    (distinct_keys (build_listeners "kytos" "of_core" 0 methods) ≡ true)
    × ((others : List ℕ) × (lookup
            (shutdown_event "kytos" "of_core")
            (build_listeners "kytos" "of_core" 0 methods)
          ≡ some (0 ∷ others)))
    × ((others : List ℕ) × (lookup "kytos/core.shutdown"
            (build_listeners "kytos" "of_core" 0 methods)
          ≡ some (0 ∷ others)))
build_listeners_example = build_listeners_lem "kytos" "of_core" 0 methods

-- The state counts down to the shutdown, and the call of `execute` at 2 raises an Exception.
abbrev execute : ℕ → Executed × ℕ
execute w = if w == 2 then (exception, w) else (done, w)

execute-keeps : (w : ℕ) → (execute w).1 ≤ w
execute-keeps w = elim (Bool-cases (w == 2)) [
  | inl e ↦ rw e (omega arith)
  | inr e ↦ rw e (omega arith)
]

run_example :
    HasEnded execute
      (λ w. w)
      (λ w. w - 1)
      (λ w. w)
      (λ w. w)
      (λ w. 0)
      (λ w. w == 0)
      (run execute (λ w. w) (λ w. w - 1) (λ w. w) (λ w. w) (λ w. 0) (λ w. w == 0) 5 (pos 10) 3)
run_example =
    run_lem execute (λ w. w) (λ w. w - 1) (λ w. w) (λ w. w) (λ w. 0) (λ w. w == 0) (λ w. w) 5
      (pos 10) 3
      record {
        wait-nearer = λ w h. ground (arith, h);
        execute-keeps = execute-keeps;
        log_error-keeps = λ w. omega arith;
      }
      refl (omega arith)
