-- ===== src/Link/Endpoints.antt =====
-- The two ends of a link.
use kytos.Prelude.{
  ◌≡◌, refl, sym, ap, ◌∙◌, inl, inr, ◌↔◌, String, Bool, true, false, ◌&&◌, Option, none, some, List,
  arith, str_eq, eq_iff,
}
use text.Mathlib.TextPositions.{eq_refl}
use kytos.Errors.{err, link_creation_error}
use kytos.Entity.{EntityStatus, up}
use kytos.Entity.Status.{NoneDown, status_lem}
use kytos.Ids.{InterfaceId, sorted_pair, link_id}
use kytos.Ids.Order.{less_cases}
use kytos.Link.{Link, Endpoint, new_link, is_enabled, is_active, link_status}

str_eq-false : (x y : String) → str_eq x y ≡ false → str_eq y x ≡ false
str_eq-false x y h = ground (arith, eq_iff x y, eq_iff y x)

module _ (sha256 : String → String) (text : InterfaceId → String) (enabled_by_default : Bool) where
  -- If the texts of the ids of two endpoints differ, the link between them is the same whichever of
  -- them is given first, with the same digest; and without one of them there is no link.
  pub new_link_comm :
      (a b : Endpoint) (other : Option Endpoint)
      → str_eq (text a.id) (text b.id) ≡ false
      → (new_link sha256 text enabled_by_default (some a) (some b)
          ≡ new_link sha256 text enabled_by_default (some b) (some a))
        × (new_link sha256 text enabled_by_default none other ≡ err link_creation_error)
        × (new_link sha256 text enabled_by_default other none ≡ err link_creation_error)
  unfolding new_link link_id sorted_pair
  new_link_comm a b other differ = (
    elim (less_cases a.id b.id) [
      | inl (h, k) ↦ rw (h, k) (rw (differ, eq_refl (text a.id)) refl)
      | inr (inl (h, k)) ↦
          rw (h, k) (rw (str_eq-false (text a.id) (text b.id) differ, eq_refl (text b.id)) refl)
      | inr (inr (h, k, e)) ↦ absurd (same e)
    ],
    refl,
    missing other,
  )
    where
      same : a.id ≡ b.id → ⊥
      same e = cc (sym differ ∙ ap (λ x. str_eq (text a.id) (text x)) (sym e) ∙ eq_refl (text a.id))

      missing :
          (o : Option Endpoint)
          → new_link sha256 text enabled_by_default o none ≡ err link_creation_error
      missing none = refl
      missing (some c) = refl

and_iff : (p q r : Bool) → (p && (q && r)) ≡ true ↔ (p ≡ true) × (q ≡ true) × (r ≡ true)
and_iff p q r = ground arith

-- A link is up exactly if it and both its endpoints are enabled and active and no registered
-- function says DOWN.
pub link_status_iff :
    (funcs : List (Link → EntityStatus)) (l : Link)
    → link_status funcs l ≡ up
      ↔ ((l.enabled ≡ true) × (l.endpoint_a.enabled ≡ true) × (l.endpoint_b.enabled ≡ true))
        × ((l.active ≡ true) × (l.endpoint_a.active ≡ true) × (l.endpoint_b.active ≡ true))
        × NoneDown funcs l
unfolding link_status is_enabled is_active
link_status_iff funcs l =
    let (up_iff, _) = status_lem (is_enabled l) (is_active l) funcs l in
    let e = and_iff l.enabled l.endpoint_a.enabled l.endpoint_b.enabled in
    let f = and_iff l.active l.endpoint_a.active l.endpoint_b.active in
    (λ h. let (p, q, r) = up_iff.0 h in (e.0 p, f.0 q, r), λ (p, q, r). up_iff.1 (e.1 p, f.1 q, r))
