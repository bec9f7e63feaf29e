-- ===== src/Interface/Specials.antt =====
-- The special tags of an interface after a tag was used and made available again.
use kytos.Prelude.{
  ◌≡◌, refl, String, Bool, true, false, ◌&&◌, Option, none, List, [], ◌∷◌, ◌++◌, arith, str_eq,
}
use text.Mathlib.TextPositions.{eq_refl}
use kytos.Errors.{Named, Result, ok}
use kytos.Dict.{lookup, insert, equal_dicts}
use kytos.TagRanges.Validated.{contains}
use kytos.Interface.Given.{word, resolve}
use kytos.Interface.State.{State, ◌>>◌}
use kytos.Interface.UseTags.{use_tags, remove_first}
use kytos.Interface.MakeAvailable.{make_tags_available}
use kytos.Interface.Restrict.{vlan, all_tags_available}

and_false : (b : Bool) → (b && false) ≡ false
and_false true = refl
and_false false = refl

-- The special tags `x`, `y` and `more`, all of them available.
abbrev pub untouched : String → String → List String → State → State
untouched x y more s = record s {
  pool = record (s.pool) {
    special_tags = (vlan, x ∷ y ∷ more) ∷ [];
    special_available_tags = (vlan, x ∷ y ∷ more) ∷ [];
  };
}

abbrev pub used_and_returned : String → State → Result (Option Named) × State
used_and_returned x s = (use_tags (word x) vlan >> make_tags_available (word x) vlan) s

contains-head : (x : String) (xs : List String) → contains x (x ∷ xs) ≡ true
unfolding contains
contains-head x xs = rw eq_refl refl

abbrev with_specials : List String → State → State
with_specials specials s = record s {
  pool = record (s.pool) { special_available_tags = (vlan, specials) ∷ [] };
  notified = s.notified ++ s.pool.id ∷ [];
}

module _ (x y : String) (more : List String) (s : State) (named : str_eq x "" ≡ false)
    (absent : contains x (y ∷ more) ≡ false) where
  use_run :
      use_tags (word x) vlan (untouched x y more s)
      ≡ (ok tt, with_specials (y ∷ more) (untouched x y more s))
  unfolding use_tags remove_first resolve lookup insert
  use_run = rw named (rw eq_refl refl)

  make_run : make_tags_available (word x) vlan (with_specials (y ∷ more) (untouched x y more s)) ≡ (
    ok none,
    with_specials ((y ∷ more) ++ x ∷ []) (with_specials (y ∷ more) (untouched x y more s)),
  )
  unfolding make_tags_available resolve lookup insert
  make_run = rw named (rw (contains-head x (y ∷ more), absent) refl)

  not_equal :
      str_eq y x ≡ false
      → all_tags_available
          (with_specials
            ((y ∷ more) ++ x ∷ [])
            (with_specials (y ∷ more) (untouched x y more s))).pool
        ≡ false
  unfolding all_tags_available equal_dicts
  not_equal other = rw other (and_false _)

-- A special tag, not the empty text, that stands once and in front of another that is used and made available again leaves every special
-- tag available, in another order, and then `all_tags_available` answers no, whatever the other
-- tags are.
pub all_tags_available-order :
    (x y : String) (more : List String) (s : State)
    → str_eq x "" ≡ false
    → contains x (y ∷ more) ≡ false
    → (used_and_returned x (untouched x y more s)).1.pool.special_available_tags
        ≡ (vlan, (y ∷ more) ++ x ∷ []) ∷ []
      × (all_tags_available (used_and_returned x (untouched x y more s)).1.pool ≡ false)
all_tags_available-order x y more s named absent =
    rw (use_run x y more s named absent) (
      rw (make_run x y more s named absent)
        (refl, not_equal x y more s named absent (other absent)))
  where
    other : contains x (y ∷ more) ≡ false → str_eq y x ≡ false
    other h = unfold contains in ground arith
