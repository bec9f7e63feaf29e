-- ===== src/Interface/Restrict/Effects.antt =====
-- What the restrictions do to the tags in use.
use kytos.Prelude.{
  ℕ, ◌≡◌, ◌⊎◌, inl, inr, refl, ◌∙◌, ap, sym, List-cases, String, Bool, true, false, not, ◌&&◌,
  Option, none, some, List, [], ◌∷◌, arith,
}
use kytos.Errors.{ok, err, set_tag_range_error}
use kytos.Dict.{lookup, insert}
use kytos.TagRanges.{range_difference}
use kytos.TagRanges.Meaning.{Range, From, covers}
use kytos.TagRanges.Difference.{range_difference_lem, difference-nil, difference-cons}
use kytos.TagRanges.Position.{find_index_remove}
use kytos.TagRanges.Position.Found.{is_some, find_index_remove-locate, locate-covers}
use kytos.Interface.State.{State}
use kytos.Interface.Restrict.{
  set_tag_ranges, is_tag_available, vlan, remove_tag_ranges, default_vlans,
}

-- For an ordered list of available tags, a tag is available exactly if it is in the list; to ask
-- changes nothing.
pub is_tag_available_lem :
    (t n : ℕ) (k : String) (s : State) (available : List Range)
    → lookup k s.pool.available_tags ≡ some available
    → From n available
    → is_tag_available t k s ≡ (ok (covers available t), s)
unfolding is_tag_available
is_tag_available_lem t n k s available h v = rw h (
    ap (λ b. (ok b, s))
      (go (find_index_remove available one)
        ∙ ap is_some (find_index_remove-locate n available one v (omega arith))
        ∙ locate-covers n t available v))
  where
    one : Range
    one = record { lo = t; hi = t }

    go : (o : Option ℕ) → elim o as (λ _. Bool) [ none ↦ false | some _ ↦ true ] ≡ is_some o
    go none = refl
    go (some i) = refl

-- A tag is in use if it is in the ranges and not available.
abbrev pub in_use : List Range → List Range → ℕ → Bool
in_use within available t = covers within t && not (covers available t)

abbrev pub restricted : String → List Range → List Range → State → State
restricted k ranges available s = record s {
  pool = record (s.pool) {
    available_tags = insert k available s.pool.available_tags;
    tag_ranges = insert k ranges s.pool.tag_ranges;
  };
}

abbrev pub new_available : List Range → List Range → List Range → List Range
new_available old available ranges = range_difference ranges (range_difference old available)

module _ (ranges old available : List Range) (s : State)
    (hr : lookup vlan s.pool.tag_ranges ≡ some old)
    (ha : lookup vlan s.pool.available_tags ≡ some available) where
  set_tag_ranges-fits :
      range_difference (range_difference old available) ranges ≡ []
      → set_tag_ranges ranges vlan s
        ≡ (ok tt, restricted vlan ranges (new_available old available ranges) s)
  unfolding set_tag_ranges
  set_tag_ranges-fits e = rw (hr, ha, e) refl

  set_tag_ranges-misses :
      (d : Range) (ds : List Range)
      → range_difference (range_difference old available) ranges ≡ d ∷ ds
      → set_tag_ranges ranges vlan s ≡ (err set_tag_range_error, s)
  unfolding set_tag_ranges
  set_tag_ranges-misses d ds e = rw (hr, ha, e) refl

-- For VLANs and ordered lists: the new ranges are set exactly if they hold all the tags in use, and then the
-- tags in use stay the same and the available tags stay ordered; else nothing changes.
pub set_tag_ranges_lem :
    (t n : ℕ) (ranges old available : List Range) (s : State)
    → lookup vlan s.pool.tag_ranges ≡ some old
    → lookup vlan s.pool.available_tags ≡ some available
    → From 1 old
    → From n available
    → From 1 ranges
    → ((set_tag_ranges ranges vlan s
          ≡ (ok tt, restricted vlan ranges (new_available old available ranges) s))
        × From 1 (new_available old available ranges)
        × (in_use ranges (new_available old available ranges) t ≡ in_use old available t))
      ⊎ ((u : ℕ) × (in_use old available u ≡ true)
          × (covers ranges u ≡ false)
          × (set_tag_ranges ranges vlan s ≡ (err set_tag_range_error, s)))
set_tag_ranges_lem t n ranges old available s hr ha vo va vr =
    let used = range_difference old available in
    let (same, vu) = range_difference_lem 1 n t old available vo va in
    let (same', vn) = range_difference_lem 1 1 t ranges used vr vu in
    elim (List-cases (range_difference used ranges)) [
      | inl e ↦ inl (
        set_tag_ranges-fits ranges old available s hr ha e,
        vn,
        stays (covers ranges t) (covers used t) _ _ same same'
            (difference-nil 1 1 t used ranges vu vr e),
      )
      | inr (d, ds, e) ↦
          let (there, gone) = difference-cons 1 1 used ranges d ds vu vr e in
          inr (
            d.lo,
            sym (range_difference_lem 1 n d.lo old available vo va).0 ∙ there,
            gone,
            set_tag_ranges-misses ranges old available s hr ha d ds e,
          )
    ]
  where
    stays : (r u w a : Bool) → u ≡ w → a ≡ (r && not u) → (u ≡ true → r ≡ true) → (r && not a) ≡ w
    stays r u w a e e' h = ground arith

-- For VLANs and ordered lists: the default ranges are always set, and of the tags in use those that the
-- default ranges hold stay in use.
pub remove_tag_ranges_lem :
    (t n : ℕ) (old available : List Range) (s : State)
    → lookup vlan s.pool.tag_ranges ≡ some old
    → lookup vlan s.pool.available_tags ≡ some available
    → From 1 old
    → From n available
    → (remove_tag_ranges vlan s
        ≡ (ok tt, restricted vlan default_vlans (new_available old available default_vlans) s))
      × From 1 (new_available old available default_vlans)
      × (in_use default_vlans (new_available old available default_vlans) t
          ≡ (covers default_vlans t && in_use old available t))
unfolding remove_tag_ranges
remove_tag_ranges_lem t n old available s hr ha vo va =
    let (same, vu) = range_difference_lem 1 n t old available vo va in
    let (same', vn) =
      range_difference_lem 1 1 t default_vlans (range_difference old available) (omega arith) vu in
    (
      rw (hr, ha) refl,
      vn,
      stays (covers default_vlans t) (covers (range_difference old available) t) _ _ same same',
    )
  where
    stays : (r u w a : Bool) → u ≡ w → a ≡ (r && not u) → (r && not a) ≡ (r && w)
    stays r u w a e e' = ground arith
