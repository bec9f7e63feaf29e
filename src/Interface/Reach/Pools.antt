-- ===== src/Interface/Reach/Pools.antt =====
-- The lists of VLANs of an interface, and what `use_tags` and `make_tags_available` leave of them.
use kytos.Prelude.{
  ℕ, ◌≤◌, arith, [], ◌∷◌, ◌≡◌, inl, inr, refl, ap, sym, subst, ◌∙◌, true, not, ◌&&◌, ◌||◌, Option,
  some, List,
}
use kytos.Errors.{Named, ok}
use kytos.Dict.{lookup, lookup-insert_self}
use kytos.TagRanges.Meaning.{Range, From, covers}
use kytos.TagRanges.Validated.{Tags}
use kytos.Interface.Given.{Given, Request, tags, resolve}
use kytos.Interface.State.{State}
use kytos.Interface.UseTags.{use_tags}
use kytos.Interface.UseTags.Taken.{asked, with_available}
use kytos.Interface.UseTags.Effects.{announced, use_tags_lem}
use kytos.Interface.MakeAvailable.{make_tags_available, as_list}
use kytos.Interface.MakeAvailable.Effects.{make_tags_available_lem}
use kytos.Interface.MakeAvailable.One.{single, make_tags_available-one}
use kytos.Interface.Restrict.{vlan}
use kytos.Interface.Restrict.Effects.{in_use, restricted}
use kytos.Interface.Reach.{listed, allowed, free, used}

-- The lists of VLANs are ordered, and the available tags are allowed.
pub record Pool (s : State) : Type 0 where
  pub within : List Range
  pub available : List Range
  pub has_within : lookup vlan s.pool.tag_ranges ≡ some within
  pub has_available : lookup vlan s.pool.available_tags ≡ some available
  pub within_ordered : From 1 within
  pub available_ordered : From 1 available
  pub inside : (t : ℕ) → covers available t ≡ true → covers within t ≡ true

module _ {s : State} (p : Pool s) where
  pub allowed-Pool : (t : ℕ) → allowed s t ≡ covers p.within t
  unfolding allowed
  allowed-Pool t = ap (λ o. covers (listed o) t) p.has_within

  pub used-Pool : (t : ℕ) → used s t ≡ in_use p.within p.available t
  unfolding used allowed free
  used-Pool t = rw (p.has_within, p.has_available) refl

  -- The pool when other tags are available.
  unfoldable pub freed :
      (left : List Range)
      → From 1 left
      → ((t : ℕ) → covers left t ≡ true → covers p.within t ≡ true)
      → Pool (announced (with_available vlan left s))
  freed left ordered within_it = record {
    within = p.within;
    available = left;
    has_within = p.has_within;
    has_available = lookup-insert_self vlan left s.pool.available_tags;
    within_ordered = p.within_ordered;
    available_ordered = ordered;
    inside = within_it;
  }

  unfoldable pub limited :
      (rs left : List Range)
      → From 1 rs
      → From 1 left
      → ((t : ℕ) → covers left t ≡ true → covers rs t ≡ true)
      → Pool (restricted vlan rs left s)
  limited rs left ordered left_ordered within_it = record {
    within = rs;
    available = left;
    has_within = lookup-insert_self vlan rs s.pool.tag_ranges;
    has_available = lookup-insert_self vlan left s.pool.available_tags;
    within_ordered = ordered;
    available_ordered = left_ordered;
    inside = within_it;
  }

  same_left :
      (l l' : List Range)
      → announced (with_available vlan l s) ≡ announced (with_available vlan l' s)
      → l ≡ l'
  same_left l l' h =
      sym (ap listed (lookup-insert_self vlan l s.pool.available_tags))
      ∙ ap (λ q. listed (lookup vlan q.pool.available_tags)) h
      ∙ ap listed (lookup-insert_self vlan l' s.pool.available_tags)

  -- What `use_tags` leaves, for all tags at once.
  pub took_left :
      (n : ℕ) (given : Given) (ts : Tags) (s' : State)
      → resolve given ≡ ok (tags ts)
      → From n (asked ts)
      → use_tags given vlan s ≡ (ok tt, s')
      → (left : List Range) × (announced (with_available vlan left s) ≡ s')
        × From 1 left
        × ((t : ℕ)
            → (covers left t ≡ (covers p.available t && not (covers (asked ts) t)))
              × (covers (asked ts) t ≡ true → covers p.available t ≡ true))
  took_left n given ts s' reads ordered h =
      let (left, leaves, from, here) = at 0 in
      (
        left,
        leaves,
        from,
        λ t.
            let (left', leaves', from', here') = at t in
            subst
              (λ l.
                (covers l t ≡ (covers p.available t && not (covers (asked ts) t)))
                × (covers (asked ts) t ≡ true → covers p.available t ≡ true))
              (same_left left' left (leaves' ∙ sym leaves)) here',
      )
    where
      at :
          (t : ℕ)
          → (left : List Range) × (announced (with_available vlan left s) ≡ s')
            × From 1 left
            × ((covers left t ≡ (covers p.available t && not (covers (asked ts) t)))
                × (covers (asked ts) t ≡ true → covers p.available t ≡ true))
      at t =
          elim (use_tags_lem t n given vlan s ts p.available reads p.has_available
            p.available_ordered ordered) [
              | inl (left, runs, from, same, sub) ↦
                  (left, ap (λ r. r.1) (sym runs ∙ h), from, (same, sub))
              | inr (u, asked_u, gone, fails) ↦ cc
            ]

  -- The list of available tags has the given ones too, and these are allowed.
  abbrev pub GaveBack : List Range → State → Type 0
  GaveBack rs s' =
      (left : List Range) × (announced (with_available vlan left s) ≡ s')
      × From 1 left
      × ((t : ℕ)
          → (covers left t ≡ (covers rs t || covers p.available t))
            × (covers rs t ≡ true → covers p.within t ≡ true))

  pub gave_left :
      (given : Given) (request : Request) (rs : List Range) (conflict : Option Named) (s' : State)
      → resolve given ≡ ok request
      → as_list request ≡ tags (Tags.ranges rs)
      → From 1 rs
      → make_tags_available given vlan s ≡ (ok conflict, s')
      → GaveBack rs s'
  gave_left given request rs conflict s' reads is_list ordered h =
      let (left, leaves, from, here) = at 0 in
      (
        left,
        leaves,
        from,
        λ t.
            let (left', leaves', from', here') = at t in
            subst
              (λ l.
                (covers l t ≡ (covers rs t || covers p.available t))
                × (covers rs t ≡ true → covers p.within t ≡ true))
              (same_left left' left (leaves' ∙ sym leaves)) here',
      )
    where
      at :
          (t : ℕ)
          → (left : List Range) × (announced (with_available vlan left s) ≡ s')
            × From 1 left
            × ((covers left t ≡ (covers rs t || covers p.available t))
                × (covers rs t ≡ true → covers p.within t ≡ true))
      at t =
          elim (make_tags_available_lem t given vlan s request rs p.within p.available reads is_list
            p.has_within p.has_available ordered p.within_ordered p.available_ordered) [
              | inl (left, twice, runs, from, same, both, sub) ↦
                  (left, ap (λ r. r.1) (sym runs ∙ h), from, (same, sub))
              | inr (outside, u, fails, there, asked_u, gone) ↦ cc
            ]

  pub gave_one_left :
      (given : Given) (request : Request) (t : ℕ) (conflict : Option Named) (s' : State)
      → resolve given ≡ ok request
      → as_list request ≡ tags (Tags.range (single t))
      → 1 ≤ t
      → make_tags_available given vlan s ≡ (ok conflict, s')
      → GaveBack (single t ∷ []) s'
  gave_one_left given request t conflict s' reads is_one low h =
      let (left, leaves, more) =
        make_tags_available-one given vlan s request t p.within p.available reads is_one
          p.has_within p.has_available (ground (arith, low)) conflict s' p.within_ordered
          p.available_ordered h in
      (left, leaves, more.0, more.1)
