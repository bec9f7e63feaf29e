-- ===== src/Link/Tags.antt =====
-- What a link hands out.
use kytos.Prelude.{
  ℕ, ◌≡◌, ◌<◌, ◌⊎◌, inl, inr, refl, ◌∙◌, ap, sym, subst, Bool, true, false, not, ◌&&◌, ◌||◌, ◌++◌,
  some, List, [], ◌∷◌, arith, List-cases,
}
use kytos.Errors.{ok, err, no_tag_available}
use kytos.Dict.{lookup, insert}
use kytos.TagRanges.{range_intersection}
use kytos.TagRanges.Meaning.{Range, From, covers, covers-below, within, From-le}
use kytos.TagRanges.Intersection.{range_intersection_lem}
use kytos.TagRanges.Validated.{Tags}
use kytos.Interface.State.{State}
use kytos.Interface.Given.{number, resolve}
use kytos.Interface.Restrict.{vlan}
use kytos.Interface.UseTags.{use_tags}
use kytos.Interface.UseTags.Taken.{with_available}
use kytos.Interface.UseTags.Effects.{use_tags_lem, announced}
use kytos.Link.{LinkState, get_next_available_tag}

abbrev pub only : ℕ → Range
only tag = record { lo = tag; hi = tag }

-- A tag that is available can be used alone.
use_one :
    (t tag : ℕ) (s : State) (available : List Range)
    → lookup vlan s.pool.available_tags ≡ some available
    → From 1 available
    → covers available tag ≡ true
    → (left : List Range) × (use_tags (number tag) vlan s
        ≡ (ok tt, announced (with_available vlan left s)))
      × (covers left t ≡ (covers available t && not (within (only tag) t)))
unfolding resolve
use_one t tag s available h v there =
    elim (use_tags_lem t tag (number tag) vlan s (Tags.range (only tag)) available refl h v
      (omega arith, omega arith, tt)) [
        | inl (left, run, ordered, same, all) ↦
            (left, run, same ∙ without (covers available t) (within (only tag) t))
        | inr (u, asked, gone, run) ↦ absurd (clash u asked gone)
      ]
  where
    without : (p q : Bool) → (p && not (q || false)) ≡ (p && not q)
    without p q = ground arith

    clash : (u : ℕ) → covers (only tag ∷ []) u ≡ true → covers available u ≡ false → ⊥
    clash u asked gone =
        let e : u ≡ tag = ground arith in cc (subst (λ x. covers available x ≡ false) e gone)

abbrev pub handed_out : List Range → List Range → LinkState → LinkState
handed_out left_a left_b s = record {
  pool_a = record (s.pool_a) { available_tags = insert vlan left_a s.pool_a.available_tags };
  pool_b = record (s.pool_b) { available_tags = insert vlan left_b s.pool_b.available_tags };
  notified = (s.notified ++ s.pool_a.id ∷ []) ++ s.pool_b.id ∷ [];
}

module _ (s : LinkState) (as' bs : List Range) (ha : lookup vlan s.pool_a.available_tags ≡ some as')
    (hb : lookup vlan s.pool_b.available_tags ≡ some bs) where
  next-none :
      range_intersection as' bs ≡ [] → get_next_available_tag vlan s ≡ (err no_tag_available, s)
  unfolding get_next_available_tag
  next-none e = rw (ha, hb, e) refl

  next-some :
      (r : Range) (rs left_a left_b : List Range)
      → range_intersection as' bs ≡ r ∷ rs
      → use_tags (number r.lo) vlan (record { pool = s.pool_a; notified = s.notified }) ≡ (
        ok tt,
        announced (with_available vlan left_a (record { pool = s.pool_a; notified = s.notified })),
      )
      → use_tags
          (number r.lo)
          vlan
          (record { pool = s.pool_b; notified = s.notified ++ s.pool_a.id ∷ [] })
        ≡ (
          ok tt,
          announced (
              with_available vlan left_b
                (record { pool = s.pool_b; notified = s.notified ++ s.pool_a.id ∷ [] })),
        )
      → get_next_available_tag vlan s ≡ (ok r.lo, handed_out left_a left_b s)
  unfolding get_next_available_tag
  next-some r rs left_a left_b e ua ub = rw (ha, hb, e) (rw (ua, ub) refl)

-- For the tag type of VLANs, endpoints that do not share the lists that the code changes in place, and
-- ordered lists of available VLANs at both: the link hands out the least tag that both endpoints have, takes exactly that
-- tag from both and puts one event for each; if they have no tag in common it raises and nothing
-- changes.
pub get_next_available_tag_lem :
    (t : ℕ) (s : LinkState) (as' bs : List Range)
    → lookup vlan s.pool_a.available_tags ≡ some as'
    → lookup vlan s.pool_b.available_tags ≡ some bs
    → From 1 as'
    → From 1 bs
    → ((tag : ℕ) × (left_a : List Range) × (left_b : List Range) × (get_next_available_tag vlan s
          ≡ (ok tag, handed_out left_a left_b s))
        × ((covers as' tag && covers bs tag) ≡ true)
        × (t < tag → (covers as' t && covers bs t) ≡ false)
        × (covers left_a t ≡ (covers as' t && not (within (only tag) t)))
        × (covers left_b t ≡ (covers bs t && not (within (only tag) t))))
      ⊎ ((get_next_available_tag vlan s ≡ (err no_tag_available, s))
          × ((covers as' t && covers bs t) ≡ false))
get_next_available_tag_lem t s as' bs ha hb va vb = elim (List-cases (range_intersection as' bs)) [
  | inl e ↦ inr (next-none s as' bs ha hb e, sym same ∙ ap (λ l. covers l t) e)
  | inr (r, rs, e) ↦
      let v' : From 1 (r ∷ rs) = subst (From 1) e ordered in
      let there = first r rs v' e in
      let (in_a, in_b) = parts _ _ there in
      let (left_a, run_a, same_a) =
        use_one t r.lo (record { pool = s.pool_a; notified = s.notified }) as' ha va in_a in
      let (left_b, run_b, same_b) =
        use_one t r.lo (record { pool = s.pool_b; notified = s.notified ++ s.pool_a.id ∷ [] }) bs hb
          vb in_b in
      inl (
        r.lo,
        left_a,
        left_b,
        next-some s as' bs ha hb r rs left_a left_b e run_a run_b,
        there,
        (λ h.
            sym same
            ∙ ap (λ l. covers l t) e
            ∙ covers-below r.lo t (r ∷ rs) (omega arith, v'.1, v'.2) h),
        same_a,
        same_b,
      )
]
  where
    same : covers (range_intersection as' bs) t ≡ (covers as' t && covers bs t)
    same = (range_intersection_lem 1 1 t as' bs va vb).0

    ordered : From 1 (range_intersection as' bs)
    ordered = From-le 1 _ _ (omega arith) (range_intersection_lem 1 1 t as' bs va vb).1

    first :
        (r : Range) (rs : List Range)
        → From 1 (r ∷ rs)
        → range_intersection as' bs ≡ r ∷ rs
        → (covers as' r.lo && covers bs r.lo) ≡ true
    first r rs v e =
        sym (range_intersection_lem 1 1 r.lo as' bs va vb).0
        ∙ ap (λ l. covers l r.lo) e
        ∙ ground arith

    parts : (p q : Bool) → (p && q) ≡ true → (p ≡ true) × (q ≡ true)
    parts p q h = ground arith
