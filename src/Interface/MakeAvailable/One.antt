-- ===== src/Interface/MakeAvailable/One.antt =====
-- What `make_tags_available` does with a single tag.
use kytos.Prelude.{
  ℕ, ◌≤◌, ◌≡◌, refl, ap, sym, subst, ◌∙◌, String, Bool, true, false, ◌||◌, Option, none, some, List,
  [], ◌∷◌, ◌==◌, arith, Bool-cases, inl, inr,
}
use kytos.Errors.{Error, Named, Result, ok, err, tags_not_in_tag_ranges}
use kytos.Dict.{lookup, insert-lookup}
use kytos.TagRanges.Meaning.{Range, From, within, covers}
use kytos.TagRanges.Position.{find_index_remove}
use kytos.TagRanges.Validated.{Tags}
use kytos.Interface.Resize.{resize, remove_tags, add_tags}
use kytos.Interface.Resize.Removal.{remove_tags-some}
use kytos.Interface.Resize.Insertion.{add_tags-some, add_tags-none}
use kytos.Interface.Given.{Given, Request, tags, resolve}
use kytos.Interface.State.{State}
use kytos.Interface.UseTags.Taken.{with_available}
use kytos.Interface.UseTags.Effects.{announced}
use kytos.Interface.MakeAvailable.{make_tags_available, as_list}

abbrev pub single : ℕ → Range
single x = record { lo = x; hi = x }

removed :
    (r : Range) (rs : List Range) (x : Range) (i : ℕ)
    → find_index_remove (r ∷ rs) x ≡ some i
    → remove_tags (r ∷ rs) x ≡ some (resize (r ∷ rs) x i)
unfolding remove_tags
removed r rs x i e =
    ap
      (λ o. elim o as (λ _. Option (List Range)) [
        | none ↦ none
        | some index ↦ some (resize (r ∷ rs) x index)
      ])
      e

-- A range that is found in an ordered list is covered by it.
find_index_remove-covers :
    (n t i : ℕ) (rs : List Range) (x : Range)
    → From n rs
    → x.lo ≤ x.hi
    → find_index_remove rs x ≡ some i
    → within x t ≡ true
    → covers rs t ≡ true
find_index_remove-covers n t i [] x v h e = absurd (unfold find_index_remove in cc)
find_index_remove-covers n t i (r ∷ rs) x v h e =
    (remove_tags-some n t (r ∷ rs) x v h (removed r rs x i e)).2

swapped : (m x a : Bool) → m ≡ (a || x) → m ≡ ((x || false) || a)
swapped m x a e = ground arith

already :
    (available : List Range) (x t : ℕ)
    → covers available x ≡ true
    → covers available t ≡ (covers (single x ∷ []) t || covers available t)
already available x t c = elim (Bool-cases (within (single x) t)) [
  | inl w ↦
      let e : t ≡ x = ground (arith, w) in rw w (subst (λ y. covers available y ≡ true) (sym e) c)
  | inr w ↦ rw w refl
]

raised :
    {A : Type 0} {a : A} {e : Error} {s s' : State}
    → Path (Result A × State) (err e, s) (ok a, s')
    → ⊥
raised h = cc

same_pool :
    (k : String) (available : List Range) (s : State)
    → lookup k s.pool.available_tags ≡ some available
    → with_available k available s ≡ s
same_pool k available s h =
    ap (λ d. record s { pool = record (s.pool) { available_tags = d } })
      (insert-lookup k available s.pool.available_tags h)

-- The list of available tags afterwards has the tag, if it is allowed, and all that it had.
abbrev pub HasMore : ℕ → List Range → List Range → List Range → Type 0
HasMore x inside available more =
    From 1 more
    × ((t : ℕ)
        → (covers more t ≡ (covers (single x ∷ []) t || covers available t))
          × (covers (single x ∷ []) t ≡ true → covers inside t ≡ true))

module _ (given : Given) (k : String) (s : State) (request : Request) (x : ℕ)
    (inside available : List Range) (asked : resolve given ≡ ok request)
    (one : as_list request ≡ tags (Tags.range (single x)))
    (hr : lookup k s.pool.tag_ranges ≡ some inside)
    (ha : lookup k s.pool.available_tags ≡ some available) (positive : (x == 0) ≡ false) where
  abbrev one_outcome : Option ℕ → Option (List Range) → Result (Option Named) × State
  one_outcome none more = (err (tags_not_in_tag_ranges (Named.ranges (single x ∷ [])) s.pool.id), s)
  one_outcome (some i) none = (ok (some (Named.ranges (single x ∷ []))), announced s)
  one_outcome (some i) (some more) = (ok none, announced (with_available k more s))

  one_run :
      (o : Option ℕ) (m : Option (List Range))
      → find_index_remove inside (single x) ≡ o
      → add_tags available (single x) ≡ m
      → make_tags_available given k s ≡ one_outcome o m
  unfolding make_tags_available
  one_run none m e f = rw (asked, one) (rw (positive, hr, e) refl)
  one_run (some i) none e f = rw (asked, one) (rw (positive, hr, e, ha, f) refl)
  one_run (some i) (some more) e f = rw (asked, one) (rw (positive, hr, e, ha, f) refl)

  -- A call that returns was for an allowed tag, and then the tag is available.
  pub make_tags_available-one :
      (conflict : Option Named) (s' : State)
      → From 1 inside
      → From 1 available
      → make_tags_available given k s ≡ (ok conflict, s')
      → (more : List Range) × (announced (with_available k more s) ≡ s')
        × HasMore x inside available more
  make_tags_available-one conflict s' vw va h =
      go (find_index_remove inside (single x)) (add_tags available (single x)) refl refl
    where
      low : 1 ≤ x
      low = ground (arith, positive)

      allowed :
          (i t : ℕ)
          → find_index_remove inside (single x) ≡ some i
          → covers (single x ∷ []) t ≡ true
          → covers inside t ≡ true
      allowed i t e w =
          find_index_remove-covers 1 t i inside (single x) vw (omega arith) e (ground (arith, w))

      there :
          (u t : ℕ)
          → within (single x) u ≡ true
          → covers available u ≡ true
          → covers available t ≡ (covers (single x ∷ []) t || covers available t)
      there u t w c =
          let e : u ≡ x = ground (arith, w) in
          let c' : covers available x ≡ true = subst (λ y. covers available y ≡ true) e c in
          already available x t c'

      go :
          (o : Option ℕ) (m : Option (List Range))
          → find_index_remove inside (single x) ≡ o
          → add_tags available (single x) ≡ m
          → (more : List Range) × (announced (with_available k more s) ≡ s')
            × HasMore x inside available more
      go none m e f = absurd (raised (sym (one_run none m e f) ∙ h))
      go (some i) none e f =
          let (u, w, c) = add_tags-none 1 available (single x) va (omega arith) f in
          (
            available,
            ap announced (same_pool k available s ha)
                ∙ ap (λ r. r.1) (sym (one_run (some i) none e f) ∙ h),
            (va, λ t. (there u t w c, allowed i t e)),
          )
      go (some i) (some more) e f =
          let at = λ (t : ℕ). add_tags-some 1 t available (single x) va low (omega arith) f in
          (
            more,
            ap (λ r. r.1) (sym (one_run (some i) (some more) e f) ∙ h),
            (
              (at 0).0,
              λ t. (
                swapped (covers more t) (within (single x) t) (covers available t) (at t).1,
                allowed i t e,
              ),
            ),
          )
