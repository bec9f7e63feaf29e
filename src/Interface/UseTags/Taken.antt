-- ===== src/Interface/UseTags/Taken.antt =====
-- `_use_tags` for numbers, without its state.
use kytos.Prelude.{
  ℕ, ◌+◌, ◌≡◌, refl, ap, sym, String, Bool, true, false, not, ◌&&◌, Option, none, some, List, [],
  ◌∷◌, arith,
}
use kytos.Errors.{Named, Result, ok, err, tags_not_available}
use kytos.Dict.{lookup, insert, insert-insert, insert-lookup, lookup-insert_self}
use kytos.TagRanges.{range_difference}
use kytos.TagRanges.Meaning.{Range, From, covers, covers-below}
use kytos.TagRanges.Validated.{Tags}
use kytos.Interface.Resize.{remove_tags}
use kytos.Interface.Resize.Removal.{remove_tags-some, remove_tags-none}
use kytos.Interface.Given.{tags}
use kytos.Interface.State.{State, Action, pure, throw, get_pool, and_then, ◌>>=◌, ◌>>◌}
use kytos.Interface.UseTags.{use_request, remove_each, remove_range, set_available, go_on, put_back}

abbrev pub with_available : String → List Range → State → State
with_available k rs s = record s {
  pool = record (s.pool) { available_tags = insert k rs s.pool.available_tags };
}

-- The ranges in turn, as long as all are there.
pub remove_list : List Range → List Range → Option (List Range)
remove_list available [] = some available
remove_list available (r ∷ rs) = elim (remove_tags available r) as (λ _. Option (List Range)) [
  | none ↦ none
  | some left ↦ remove_list left rs
]

abbrev pub asked : Tags → List Range
asked (Tags.range r) = r ∷ []
asked (Tags.ranges rs) = rs

with_available-twice :
    (k : String) (rs rs' : List Range) (s : State)
    → with_available k rs (with_available k rs' s) ≡ with_available k rs s
with_available-twice k rs rs' s =
    ap (λ d. record s { pool = record (s.pool) { available_tags = d } })
      (insert-insert k rs rs' s.pool.available_tags)

with_available-same :
    (k : String) (rs : List Range) (s : State)
    → lookup k s.pool.available_tags ≡ some rs
    → with_available k rs s ≡ s
with_available-same k rs s h =
    ap (λ d. record s { pool = record (s.pool) { available_tags = d } })
      (insert-lookup k rs s.pool.available_tags h)

-- What the loop returns or raises, and the state it leaves.
abbrev Ends :
    String
    → List Range
    → List Range
    → State
    → Option (List Range)
    → Result (Unit {0}) × State
    → Type 0
Ends k copy given s none out = out ≡ (
  err (tags_not_available (Named.ranges (range_difference given copy)) s.pool.id),
  with_available k copy s,
)
Ends k copy given s (some left) out = out ≡ (ok tt, with_available k left s)

abbrev removed : Option (List Range) → String → State → Result Bool × State
removed none k s = (ok false, s)
removed (some left) k s = (ok true, with_available k left s)

remove_range-removed :
    (k : String) (available : List Range) (r : Range) (s : State)
    → lookup k s.pool.available_tags ≡ some available
    → remove_range k r s ≡ removed (remove_tags available r) k s
remove_range-removed k available r s h = rw h (go (remove_tags available r))
  where
    go :
        (o : Option (List Range))
        → (elim o as (λ _. Action Bool) [
          | none ↦ pure false
          | some left ↦ set_available k left >> pure true
        ])
            s
          ≡ removed o k s
    go none = refl
    go (some left) = refl

Ends-with_available :
    (k : String) (copy left given : List Range) (s : State) (o : Option (List Range))
    (out : Result (Unit {0}) × State)
    → Ends k copy given (with_available k left s) o out
    → Ends k copy given s o out
Ends-with_available k copy left given s none out h = rw (with_available-twice k copy left s) at h
Ends-with_available k copy left given s (some more) out h =
    rw (with_available-twice k more left s) at h

remove_each-Ends :
    (k : String) (copy given available rs : List Range) (s : State)
    → lookup k s.pool.available_tags ≡ some available
    → Ends k copy given s (remove_list available rs) (remove_each k copy given rs s)
unfolding remove_list remove_each
remove_each-Ends k copy given available [] s h =
    ap (λ x. (ok tt, x)) (sym (with_available-same k available s h))
remove_each-Ends k copy given available (r ∷ rs) s h = rw (remove_range-removed k available r s h) (
    go (remove_tags available r) λ left.
      remove_each-Ends k copy given left rs (with_available k left s)
        (lookup-insert_self k left s.pool.available_tags))
  where
    go :
        (o : Option (List Range))
        → ((left : List Range)
            → Ends k copy given
                (with_available k left s)
                (remove_list left rs)
                (remove_each k copy given rs (with_available k left s)))
        → Ends k copy given s
            (elim o as (λ _. Option (List Range)) [ none ↦ none | some left ↦ remove_list left rs ])
            (and_then
              (removed o k s).0
              (λ done. go_on done (remove_each k copy given rs) (put_back k copy given))
              (removed o k s).1)
    go none ih = refl
    go (some left) ih = Ends-with_available k copy left given s _ _ (ih left)

abbrev pub taken : List Range → Tags → Option (List Range)
taken available (Tags.range r) = remove_tags available r
taken available (Tags.ranges rs) = remove_list available rs

-- The tags that the exception names.
abbrev pub refused : List Range → Tags → List Range
refused available (Tags.range r) = r ∷ []
refused available (Tags.ranges rs) = range_difference rs available

abbrev pub outcome :
    String → List Range → Tags → State → Option (List Range) → Result (Unit {0}) × State
outcome k available ts s none =
    (err (tags_not_available (Named.ranges (refused available ts)) s.pool.id), s)
outcome k available ts s (some left) = (ok tt, with_available k left s)

Ends-outcome :
    (k : String) (available rs : List Range) (s : State) (o : Option (List Range))
    (out : Result (Unit {0}) × State)
    → lookup k s.pool.available_tags ≡ some available
    → Ends k available rs s o out
    → out ≡ outcome k available (Tags.ranges rs) s o
Ends-outcome k available rs s none out h e = rw (with_available-same k available s h) at e
Ends-outcome k available rs s (some left) out h e = e

pub use_request-taken :
    (k : String) (available : List Range) (ts : Tags) (s : State)
    → lookup k s.pool.available_tags ≡ some available
    → use_request (tags ts) k s ≡ outcome k available ts s (taken available ts)
unfolding use_request
use_request-taken k available (Tags.range r) s h =
    rw (remove_range-removed k available r s h) (go (remove_tags available r))
  where
    go :
        (o : Option (List Range))
        → and_then
            (removed o k s).0
            (λ done. do
              p ← get_pool
              go_on done (pure tt) (throw (tags_not_available (Named.ranges (r ∷ [])) p.id)))
            (removed o k s).1
          ≡ outcome k available (Tags.range r) s o
    go none = refl
    go (some left) = refl
use_request-taken k available (Tags.ranges rs) s h = rw h (
    Ends-outcome k available rs s (remove_list available rs) _ h
      (remove_each-Ends k available rs available rs s h))

-- Ranges are removed exactly if all of their tags are there, and then only those.
abbrev pub IsTaken : ℕ → List Range → List Range → Option (List Range) → Type 0
IsTaken t available rs none = (u : ℕ) × (covers rs u ≡ true) × (covers available u ≡ false)
IsTaken t available rs (some left) =
    From 1 left
    × (covers left t ≡ (covers available t && not (covers rs t)))
    × (covers rs t ≡ true → covers available t ≡ true)

none_left : (p : Bool) → p ≡ (p && not false)
none_left true = refl
none_left false = refl

-- One range more, in front.
IsTaken-cons :
    (t n : ℕ) (available left rs : List Range) (r : Range) (o : Option (List Range))
    → From 1 available
    → From n (r ∷ rs)
    → remove_tags available r ≡ some left
    → IsTaken t left rs o
    → IsTaken t available (r ∷ rs) o
IsTaken-cons t n available left rs r none v w e (u, there, gone) =
    let (_, same, _) = remove_tags-some 1 u available r v w.1 e in
    (u, ground arith, ground (arith, same, covers-below (r.hi + 2) u rs w.2))
IsTaken-cons t n available left rs r (some more) v w e (v', same', all') =
    let (_, same, all) = remove_tags-some 1 t available r v w.1 e in
    (v', ground (arith, same, same'), λ h. ground (arith, all, all', same))

remove_list-IsTaken :
    (t n : ℕ) (available rs : List Range)
    → From 1 available
    → From n rs
    → IsTaken t available rs (remove_list available rs)
unfolding remove_list
remove_list-IsTaken t n available [] v w = (v, none_left _, λ h. cc)
remove_list-IsTaken t n available (r ∷ rs) v w = go (remove_tags available r) refl λ left e.
    remove_list-IsTaken t (r.hi + 2) left rs (remove_tags-some 1 t available r v w.1 e).0 w.2
  where
    go :
        (o : Option (List Range))
        → remove_tags available r ≡ o
        → ((left : List Range)
            → remove_tags available r ≡ some left
            → IsTaken t left rs (remove_list left rs))
        → IsTaken t available
            (r ∷ rs)
            (elim o as (λ _. Option (List Range)) [ none ↦ none | some left ↦ remove_list left rs ])
    go none e ih =
        let (u, inside, gone) = remove_tags-none 1 available r v w.1 e in (u, ground arith, gone)
    go (some left) e ih =
        IsTaken-cons t n available left rs r (remove_list left rs) v w e (ih left e)

remove_list-single :
    (available : List Range) (r : Range) → remove_list available (r ∷ []) ≡ remove_tags available r
unfolding remove_list
remove_list-single available r = go (remove_tags available r)
  where
    go :
        (o : Option (List Range))
        → elim o as (λ _. Option (List Range)) [ none ↦ none | some left ↦ some left ] ≡ o
    go none = refl
    go (some left) = refl

pub asked-IsTaken :
    (t n : ℕ) (available : List Range) (ts : Tags)
    → From 1 available
    → From n (asked ts)
    → IsTaken t available (asked ts) (taken available ts)
asked-IsTaken t n available (Tags.range r) v w =
    rw (remove_list-single available r) at (remove_list-IsTaken t n available (r ∷ []) v w)
asked-IsTaken t n available (Tags.ranges rs) v w = remove_list-IsTaken t n available rs v w
