-- ===== src/Interface/ResizeTests.antt =====
-- Small inputs of the two methods that resize a list of available tags.
use kytos.Prelude.{ℕ, ◌≡◌, refl, true, false, not, ◌&&◌, ◌||◌, none, some, List, [], ◌∷◌, arith}
use kytos.TagRanges.Meaning.{Range, covers, From, within}
use kytos.TagRanges.Position.{find_index_remove, find_index_add}
use kytos.Interface.Resize.{remove_tags, add_tags}
use kytos.Interface.Resize.Removal.{remove_tags-some}
use kytos.Interface.Resize.Insertion.{add_tags-some}

abbrev r : ℕ → ℕ → Range
r lo hi = record { lo = lo; hi = hi }

abbrev some_tags : List Range
some_tags = r 1 5 ∷ r 10 20 ∷ r 30 40 ∷ []

program : Unit {0}
unfolding remove_tags add_tags find_index_remove find_index_add
program = tt

remove_tags_run : remove_tags some_tags (r 12 14) ≡ some (r 1 5 ∷ r 10 11 ∷ r 15 20 ∷ r 30 40 ∷ [])
unfolding program
remove_tags_run = refl

remove_tags_refused : remove_tags some_tags (r 4 12) ≡ none
unfolding program
remove_tags_refused = refl

add_tags_run : add_tags some_tags (r 6 9) ≡ some (r 1 20 ∷ r 30 40 ∷ [])
unfolding program
add_tags_run = refl

add_tags_refused : add_tags some_tags (r 4 9) ≡ none
unfolding program
add_tags_refused = refl

remove_tags-some_example :
    From 1 (r 1 5 ∷ r 10 11 ∷ r 15 20 ∷ r 30 40 ∷ [])
    × (covers (r 1 5 ∷ r 10 11 ∷ r 15 20 ∷ r 30 40 ∷ []) 13
        ≡ (covers some_tags 13 && not (within (r 12 14) 13)))
    × (within (r 12 14) 13 ≡ true → covers some_tags 13 ≡ true)
remove_tags-some_example =
    remove_tags-some 1 13 some_tags (r 12 14) (omega arith) (omega arith) remove_tags_run

add_tags-some_example :
    From 1 (r 1 20 ∷ r 30 40 ∷ [])
    × (covers (r 1 20 ∷ r 30 40 ∷ []) 7 ≡ (covers some_tags 7 || within (r 6 9) 7))
    × (within (r 6 9) 7 ≡ true → covers some_tags 7 ≡ false)
add_tags-some_example =
    add_tags-some 1 7 some_tags (r 6 9) (omega arith) (omega arith) (omega arith) add_tags_run
