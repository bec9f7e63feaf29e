-- ===== src/Interface/Given.antt =====
-- The tags that `use_tags` and `make_tags_available` of kytos/core/interface.py are given, and the
-- lines with which both begin: an integer is a range of one tag, and a list is validated unless
-- `check_order` is off. That is for internal calls, which pass validated lists, so such a list is one
-- of pairs here; other lists without the check are not modelled. A text and an integer are read in
-- the same way with the check and without.
use kytos.Prelude.{ℕ, String, List, [], str_eq, if◌then◌else◌}
use kytos.Errors.{Result, ok, err, index_error, ◌>>=◌}
use kytos.TagRanges.Validated.{RawRange, Tags, range, ranges, get_validated_tags}

-- str, int, or list[int] and list[list[int]], with `check_order` and without
pub data Given : Type 0 where
  word : String → Given
  number : ℕ → Given
  raw : List RawRange → Given
  unchecked : Tags → Given

-- What `_use_tags` and `_make_tags_available` are called with.
pub data Request : Type 0 where
  special : String → Request
  tags : Tags → Request

-- The first character of an empty text and the first element of an empty list are out of bounds.
unfoldable pub resolve : Given → Result Request
unfolding get_validated_tags
resolve (word s) = if str_eq s "" then err index_error else ok (special s)
resolve (number t) = ok (tags (range (record { lo = t; hi = t })))
resolve (raw l) = do ts ← get_validated_tags l; ok (tags ts)
resolve (unchecked (ranges [])) = err index_error
resolve (unchecked ts) = ok (tags ts)
