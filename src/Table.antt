-- ===== src/Table.antt =====
-- Python's dicts with keys of other types than text: entries in the order of insertion, and the
-- equality of keys as an instance.
use kytos.Prelude.{
  ℕ, ◌≡◌, refl, ap₂, ◌↔◌, String, Bool, true, false, ◌&&◌, Option, none, some, List, [], ◌∷◌, ◌==◌,
  arith, str_eq, eq_iff, if◌then◌else◌,
}

pub record Eq {ℓ} (K : Type ℓ) : Type ℓ where
  pub same : K → K → Bool
  pub same_iff : (a b : K) → (same a b ≡ true) ↔ (a ≡ b)

pub number_iff : (a b : ℕ) → ((a == b) ≡ true) ↔ (a ≡ b)
number_iff a b = ground arith

instance abbrev pub number_eq : Eq ℕ
number_eq = record { same = ◌==◌; same_iff = number_iff }

-- A pair of texts, or of a text and a number.
both_iff : (p q : Bool) → ((p && q) ≡ true) ↔ ((p ≡ true) × (q ≡ true))
both_iff p q = ground arith

module _ {K L : Type 0} ⦃e : Eq K⦄ ⦃f : Eq L⦄ where
  abbrev same_pair : K × L → K × L → Bool
  same_pair x y = e.same x.0 y.0 && f.same x.1 y.1

  pub same_pair_iff : (x y : K × L) → (same_pair x y ≡ true) ↔ (x ≡ y)
  same_pair_iff x y = (
    λ h.
        let (p, q) = (both_iff (e.same x.0 y.0) (f.same x.1 y.1)).0 h in
        ap₂ (λ a b. (a, b)) ((e.same_iff x.0 y.0).0 p) ((f.same_iff x.1 y.1).0 q),
    λ h.
        (both_iff (e.same x.0 y.0) (f.same x.1 y.1)).1
          ((e.same_iff x.0 y.0).1 (λ i. (h i).0), (f.same_iff x.1 y.1).1 (λ i. (h i).1)),
  )

  instance abbrev pub pair_eq : Eq (K × L)
  pair_eq = record { same = same_pair; same_iff = same_pair_iff }

instance abbrev pub text_eq : Eq String
text_eq = record { same = str_eq; same_iff = eq_iff }

abbrev pub Table : Type 0 → Type 0 → Type 0
Table K V = List (K × V)

pub same_refl : {K : Type 0} ⦃e : Eq K⦄ (k : K) → e.same k k ≡ true
same_refl ⦃e⦄ k = (e.same_iff k k).1 refl

module _ {K V : Type 0} ⦃e : Eq K⦄ where
  -- d.get(k)
  unfoldable pub find : K → Table K V → Option V
  find k [] = none
  find k ((j, v) ∷ d) = if e.same j k then some v else find k d

  -- d[k] = v
  unfoldable pub store : K → V → Table K V → Table K V
  store k v [] = (k, v) ∷ []
  store k v ((j, w) ∷ d) = if e.same j k then (j, v) ∷ d else (j, w) ∷ store k v d

  -- d.pop(k, None), without its result
  unfoldable pub drop_key : K → Table K V → Table K V
  drop_key k [] = []
  drop_key k ((j, w) ∷ d) = if e.same j k then drop_key k d else (j, w) ∷ drop_key k d

  pub find-store :
      (k j : K) (v : V) (d : Table K V)
      → find j (store k v d) ≡ (if e.same k j then some v else find j d)
  unfolding find store
  find-store k j v [] = refl
  find-store k j v ((i, w) ∷ d) =
      ground (arith, e.same_iff k j, e.same_iff i k, e.same_iff i j, find-store k j v d)

  pub find-drop_key :
      (k j : K) (d : Table K V) → find j (drop_key k d) ≡ (if e.same k j then none else find j d)
  unfolding find drop_key
  find-drop_key k j [] = ground arith
  find-drop_key k j ((i, w) ∷ d) =
      ground (arith, e.same_iff k j, e.same_iff i k, e.same_iff i j, find-drop_key k j d)

  pub find-store_self : (k : K) (v : V) (d : Table K V) → find k (store k v d) ≡ some v
  find-store_self k v d = rw find-store (rw (same_refl k) refl)

  pub find-store_ne :
      (k j : K) (v : V) (d : Table K V) → e.same k j ≡ false → find j (store k v d) ≡ find j d
  find-store_ne k j v d h = rw find-store (rw h refl)
