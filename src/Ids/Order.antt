-- ===== src/Ids/Order.antt =====
-- Two identifiers in order are the same whichever comes first.
use Prim.Native.Nat.{Ordering}
use Prim.Native.String.{compare}
use text.Mathlib.TextEquality.{path_by_compare}
use kytos.Prelude.{
  ℕ, ◌≡◌, refl, sym, ap, ap₂, ◌∙◌, ◌⊎◌, inl, inr, Bool, true, false, ltb, arith, Bool-cases,
}
use kytos.Ids.{InterfaceId, then_port, less, sorted_pair}
use kytos.Ids.TextOrder.{swap, swap_texts}

-- What the comparison of the switches and of the ports says of both directions.
port_order :
    (o : Ordering) (p q : ℕ)
    → (then_port o p q ≡ true × (then_port (swap o) q p ≡ false))
      ⊎ (then_port o p q ≡ false × (then_port (swap o) q p ≡ true))
      ⊎ (then_port o p q ≡ false × (then_port (swap o) q p ≡ false) × (o ≡ Ordering.eq) × (p ≡ q))
port_order Ordering.lt p q = inl (refl, refl)
port_order Ordering.gt p q = inr (inl (refl, refl))
port_order Ordering.eq p q = elim (Bool-cases (ltb p q)) [
  | inl e ↦ inl (e, ground arith)
  | inr e ↦ elim (Bool-cases (ltb q p)) [
    | inl f ↦ inr (inl (e, f))
    | inr f ↦ inr (inr (e, f, refl, ground arith))
  ]
]

-- Of two identifiers one is before the other, and not the other way round, or they are equal.
pub less_cases :
    (a b : InterfaceId)
    → (less a b ≡ true × (less b a ≡ false))
      ⊎ (less a b ≡ false × (less b a ≡ true))
      ⊎ (less a b ≡ false × (less b a ≡ false) × (a ≡ b))
unfolding less
less_cases a b = elim (port_order (compare a.switch b.switch) a.port b.port) [
  | inl (h, k) ↦ inl (h, turn k)
  | inr (inl (h, k)) ↦ inr (inl (h, turn k))
  | inr (inr (h, k, e, p)) ↦ inr (
      inr (
        h,
        turn k,
        ap₂ (λ s n. record { switch = s; port = n }) (path_by_compare a.switch b.switch e) p,
      ))
]
  where
    turn :
        {x : Bool}
        → then_port (swap (compare a.switch b.switch)) b.port a.port ≡ x
        → then_port (compare b.switch a.switch) b.port a.port ≡ x
    turn k = ap (λ o. then_port o b.port a.port) (sym (swap_texts a.switch b.switch)) ∙ k

pub sorted_pair_comm : (a b : InterfaceId) → sorted_pair a b ≡ sorted_pair b a
unfolding sorted_pair
sorted_pair_comm a b = elim (less_cases a b) [
  | inl (h, k) ↦ rw (h, k) refl
  | inr (inl (h, k)) ↦ rw (h, k) refl
  | inr (inr (h, k, e)) ↦ rw (h, k) (ap₂ (λ x y. (x, y)) e (sym e))
]
