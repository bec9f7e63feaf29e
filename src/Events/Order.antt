-- ===== src/Events/Order.antt =====
-- The order in which a priority queue takes events.
use kytos.Prelude.{
  ℕ, ◌≡◌, ◌<◌, ◌⊎◌, ◌↔◌, inl, inr, refl, ap, Bool, true, false, not, ltb, ◌==◌, arith, Bool-cases,
  if◌then◌else◌,
}
use kytos.Events.{ℤ, pos, negsuc, int_ltb, int_eq, KytosEvent, less}

-- The order of pairs of a priority and a time.
before : ℤ → ℕ → ℤ → ℕ → Bool
before p s q t = if not (int_eq p q) then int_ltb p q else ltb s t

before_irrefl : (p : ℤ) (s : ℕ) → before p s p s ≡ false
unfolding before
before_irrefl (pos a) s = ground arith
before_irrefl (negsuc a) s = ground arith

before_trans :
    (p q r : ℤ) (s t u : ℕ) → before p s q t ≡ true → before q t r u ≡ true → before p s r u ≡ true
unfolding before
before_trans (pos a) (pos b) (pos c) s t u h k = ground arith
before_trans (pos a) (pos b) (negsuc c) s t u h k = ground arith
before_trans (pos a) (negsuc b) r s t u h k = ground arith
before_trans (negsuc a) (pos b) (pos c) s t u h k = ground arith
before_trans (negsuc a) (pos b) (negsuc c) s t u h k = ground arith
before_trans (negsuc a) (negsuc b) (pos c) s t u h k = ground arith
before_trans (negsuc a) (negsuc b) (negsuc c) s t u h k = ground arith

-- Not to be before can be chained.
before_splits :
    (p q r : ℤ) (s t u : ℕ)
    → before p s q t ≡ false
    → before q t r u ≡ false
    → before p s r u ≡ false
unfolding before
before_splits (pos a) (pos b) (pos c) s t u h k = ground arith
before_splits (pos a) (pos b) (negsuc c) s t u h k = ground arith
before_splits (pos a) (negsuc b) (pos c) s t u h k = ground arith
before_splits (pos a) (negsuc b) (negsuc c) s t u h k = ground arith
before_splits (negsuc a) (pos b) r s t u h k = ground arith
before_splits (negsuc a) (negsuc b) (pos c) s t u h k = ground arith
before_splits (negsuc a) (negsuc b) (negsuc c) s t u h k = ground arith

-- A number before another on the line of the integers.
abbrev pub Below : ℤ → ℤ → Type 0
Below (pos a) (pos b) = a < b
Below (pos a) (negsuc b) = ⊥
Below (negsuc a) (pos b) = Unit
Below (negsuc a) (negsuc b) = b < a

before_iff : (p q : ℤ) (s t : ℕ) → before p s q t ≡ true ↔ (Below p q ⊎ ((p ≡ q) × (s < t)))
unfolding before
before_iff (pos a) (pos b) s t = (lower, higher)
  where
    lower : before (pos a) s (pos b) t ≡ true → Below (pos a) (pos b) ⊎ ((pos a ≡ pos b) × (s < t))
    lower h = elim (Bool-cases (a == b)) [
      | inl e ↦ inr (ap pos (ground (arith, e)), ground (arith, e, h))
      | inr e ↦ inl (ground (arith, e, h))
    ]

    higher : Below (pos a) (pos b) ⊎ ((pos a ≡ pos b) × (s < t)) → before (pos a) s (pos b) t ≡ true
    higher (inl l) = ground (arith, l)
    higher (inr (e, l)) = let e' : a ≡ b = cc in ground (arith, e', l)
before_iff (pos a) (negsuc b) s t = (λ h. cc, only_left)
  where
    only_left : ⊥ ⊎ ((pos a ≡ negsuc b) × (s < t)) → before (pos a) s (negsuc b) t ≡ true
    only_left (inl l) = absurd l
    only_left (inr (e, l)) = cc
before_iff (negsuc a) (pos b) s t = (λ h. inl tt, λ h. refl)
before_iff (negsuc a) (negsuc b) s t = (lower, higher)
  where
    lower :
        before (negsuc a) s (negsuc b) t ≡ true
        → Below (negsuc a) (negsuc b) ⊎ ((negsuc a ≡ negsuc b) × (s < t))
    lower h = elim (Bool-cases (a == b)) [
      | inl e ↦ inr (ap negsuc (ground (arith, e)), ground (arith, e, h))
      | inr e ↦ inl (ground (arith, e, h))
    ]

    higher :
        Below (negsuc a) (negsuc b) ⊎ ((negsuc a ≡ negsuc b) × (s < t))
        → before (negsuc a) s (negsuc b) t ≡ true
    higher (inl l) = ground (arith, l)
    higher (inr (e, l)) = let e' : a ≡ b = cc in ground (arith, e', l)

-- An event is before another exactly if its priority is a lower number, or the priorities are the same
-- and it was made earlier. So no event is before itself, and both "before" and "not before" can be
-- chained.
pub less_lem :
    {V : Type 0} (a b c : KytosEvent V)
    → (less a b ≡ true
        ↔ (Below a.priority b.priority ⊎ ((a.priority ≡ b.priority) × (a.timestamp < b.timestamp))))
      × (less a a ≡ false)
      × (less a b ≡ true → less b c ≡ true → less a c ≡ true)
      × (less a b ≡ false → less b c ≡ false → less a c ≡ false)
unfolding less before before_irrefl before_trans before_splits
less_lem a b c = (
  before_iff a.priority b.priority a.timestamp b.timestamp,
  before_irrefl a.priority a.timestamp,
  before_trans a.priority b.priority c.priority a.timestamp b.timestamp c.timestamp,
  before_splits a.priority b.priority c.priority a.timestamp b.timestamp c.timestamp,
)
