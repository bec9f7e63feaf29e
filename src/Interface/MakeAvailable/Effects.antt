-- ===== src/Interface/MakeAvailable/Effects.antt =====
-- What `make_tags_available` does to an interface.
use kytos.Prelude.{
  ℕ, ◌≡◌, ◌⊎◌, inl, inr, refl, ◌∙◌, ap, sym, String, true, false, not, ◌&&◌, ◌||◌, some, List, [],
  ◌∷◌, List-cases,
}
use kytos.Errors.{Named, ok, err, tags_not_in_tag_ranges}
use kytos.Dict.{lookup}
use kytos.TagRanges.{range_difference, range_addition}
use kytos.TagRanges.Meaning.{Range, From, covers}
use kytos.TagRanges.Validated.{Tags}
use kytos.TagRanges.Difference.{range_difference_lem, difference-nil, difference-cons}
use kytos.TagRanges.Addition.{range_addition_lem}
use kytos.Interface.Given.{Given, Request, tags, resolve}
use kytos.Interface.State.{State}
use kytos.Interface.UseTags.Taken.{with_available}
use kytos.Interface.UseTags.Effects.{announced}
use kytos.Interface.MakeAvailable.{make_tags_available, as_list}

module _ (given : Given) (k : String) (s : State) (request : Request)
    (rs within available : List Range) (asked : resolve given ≡ ok request)
    (listed : as_list request ≡ tags (Tags.ranges rs))
    (hr : lookup k s.pool.tag_ranges ≡ some within)
    (ha : lookup k s.pool.available_tags ≡ some available) where
  make_tags_available-fits :
      range_difference rs within ≡ []
      → make_tags_available given k s ≡ (
        ok (some (Named.ranges (range_addition rs available).conflict)),
        announced (with_available k (range_addition rs available).result s),
      )
  unfolding make_tags_available
  make_tags_available-fits e = rw (asked, listed) (rw (hr, e, ha) refl)

  make_tags_available-outside :
      (d : Range) (ds : List Range)
      → range_difference rs within ≡ d ∷ ds
      → make_tags_available given k s
        ≡ (err (tags_not_in_tag_ranges (Named.ranges (d ∷ ds)) s.pool.id), s)
  unfolding make_tags_available
  make_tags_available-outside d ds e = rw (asked, listed) (rw (hr, e) refl)

-- For tags that are read as a list of ranges, and lists under the tag type, all of them ordered:
-- either the ranges lie within the restriction, and then the available tags are
-- those there were and those given, the reply is exactly the tags that were available before, and
-- one event is put; or the exception names exactly the tags outside, and nothing changes.
pub make_tags_available_lem :
    (t : ℕ) (given : Given) (k : String) (s : State) (request : Request)
    (rs within available : List Range)
    → resolve given ≡ ok request
    → as_list request ≡ tags (Tags.ranges rs)
    → lookup k s.pool.tag_ranges ≡ some within
    → lookup k s.pool.available_tags ≡ some available
    → From 1 rs
    → From 1 within
    → From 1 available
    → ((more : List Range) × (conflict : List Range) × (make_tags_available given k s
          ≡ (ok (some (Named.ranges conflict)), announced (with_available k more s)))
        × From 1 more
        × (covers more t ≡ (covers rs t || covers available t))
        × (covers conflict t ≡ (covers rs t && covers available t))
        × (covers rs t ≡ true → covers within t ≡ true))
      ⊎ ((outside : List Range) × (u : ℕ) × (make_tags_available given k s
            ≡ (err (tags_not_in_tag_ranges (Named.ranges outside) s.pool.id), s))
          × (covers outside t ≡ (covers rs t && not (covers within t)))
          × (covers rs u ≡ true)
          × (covers within u ≡ false))
make_tags_available_lem t given k s request rs within available asked listed hr ha vg vw va =
    elim (List-cases (range_difference rs within)) [
      | inl e ↦
          let (same, twice, ordered) = range_addition_lem t 1 rs available vg va in
          inl (
            (range_addition rs available).result,
            (range_addition rs available).conflict,
            make_tags_available-fits given k s request rs within available asked listed hr ha e,
            ordered,
            same,
            twice,
            difference-nil 1 1 t rs within vg vw e,
          )
      | inr (d, ds, e) ↦
          let (there, gone) = difference-cons 1 1 rs within d ds vg vw e in
          inr (
            d ∷ ds,
            d.lo,
            make_tags_available-outside given k s request rs within available asked listed hr ha d
                ds e,
            ap (λ l. covers l t) (sym e) ∙ (range_difference_lem 1 1 t rs within vg vw).0,
            there,
            gone,
          )
    ]
