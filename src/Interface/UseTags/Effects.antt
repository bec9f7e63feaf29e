-- ===== src/Interface/UseTags/Effects.antt =====
-- What `use_tags` does to an interface.
use kytos.Prelude.{
  ℕ, ◌≡◌, ◌⊎◌, inl, inr, refl, String, true, false, not, ◌&&◌, Option, none, some, List, [], ◌∷◌,
  ◌++◌,
}
use kytos.Errors.{Named, Result, ok, err, tags_not_available}
use kytos.Dict.{lookup}
use kytos.TagRanges.Meaning.{Range, From, covers}
use kytos.TagRanges.Validated.{Tags}
use kytos.Interface.Given.{Given, tags, resolve}
use kytos.Interface.State.{State, unsupported, and_then}
use kytos.Interface.UseTags.{use_tags, notify}
use kytos.Interface.UseTags.Taken.{
  with_available, asked, taken, refused, outcome, use_request-taken, IsTaken, asked-IsTaken,
}

-- A method that raises has changed nothing.
abbrev pub IsSafe : {A : Type 0} → State → Result A × State → Type 0
IsSafe s (ok a, s') = Unit
IsSafe s (err e, s') = s' ≡ s

-- the last lines of `use_tags`
abbrev finish : Result (Unit {0}) × State → Result (Unit {0}) × State
finish out = and_then (unsupported out.0) (λ _. notify) out.1

-- The state in which the event about the interface is put.
abbrev pub announced : State → State
announced s = record s { notified = s.notified ++ s.pool.id ∷ [] }

abbrev finish_outcome :
    (k : String) (available : List Range) (ts : Tags) (s : State) (o : Option (List Range))
    → Result (Unit {0}) × State
finish_outcome k available ts s o = finish (outcome k available ts s o)

use_tags-outcome :
    (given : Given) (k : String) (s : State) (ts : Tags) (available : List Range)
    → resolve given ≡ ok (tags ts)
    → lookup k s.pool.available_tags ≡ some available
    → use_tags given k s ≡ finish_outcome k available ts s (taken available ts)
unfolding use_tags
use_tags-outcome given k s ts available e h = rw e (rw (use_request-taken k available ts s h) refl)

pub use_tags_lem :
    (t n : ℕ) (given : Given) (k : String) (s : State) (ts : Tags) (available : List Range)
    → resolve given ≡ ok (tags ts)
    → lookup k s.pool.available_tags ≡ some available
    → From 1 available
    → From n (asked ts)
    → ((left : List Range) × (use_tags given k s ≡ (ok tt, announced (with_available k left s)))
        × From 1 left
        × (covers left t ≡ (covers available t && not (covers (asked ts) t)))
        × (covers (asked ts) t ≡ true → covers available t ≡ true))
      ⊎ ((u : ℕ) × (covers (asked ts) u ≡ true)
          × (covers available u ≡ false)
          × (use_tags given k s
              ≡ (err (tags_not_available (Named.ranges (refused available ts)) s.pool.id), s)))
use_tags_lem t n given k s ts available e h v w =
    go (taken available ts) (use_tags-outcome given k s ts available e h)
      (asked-IsTaken t n available ts v w)
  where
    go :
        (o : Option (List Range))
        → use_tags given k s ≡ finish_outcome k available ts s o
        → IsTaken t available (asked ts) o
        → ((left : List Range) × (use_tags given k s ≡ (ok tt, announced (with_available k left s)))
            × From 1 left
            × (covers left t ≡ (covers available t && not (covers (asked ts) t)))
            × (covers (asked ts) t ≡ true → covers available t ≡ true))
          ⊎ ((u : ℕ) × (covers (asked ts) u ≡ true)
              × (covers available u ≡ false)
              × (use_tags given k s
                  ≡ (err (tags_not_available (Named.ranges (refused available ts)) s.pool.id), s)))
    go none out (u, there, gone) = inr (u, there, gone, out)
    go (some left) out (ordered, same, all) = inl (left, out, ordered, same, all)
