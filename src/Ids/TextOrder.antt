-- ===== src/Ids/TextOrder.antt =====
-- The order of texts the other way round.
use Prim.Native.Nat.{ℕ, Ordering, compare as compare_ℕ}
use Prim.Native.Char.{code}
use Prim.Native.String.compare
use Prim.Native.String.{String, [], ◌∷◌, compare, then}
use mathlib.Core.Path.{◌≡◌, refl}
use kytos.Prelude.{arith}

abbrev pub swap : Ordering → Ordering
swap Ordering.lt = Ordering.gt
swap Ordering.eq = Ordering.eq
swap Ordering.gt = Ordering.lt

swap_numbers : (m n : ℕ) → swap (compare_ℕ m n) ≡ compare_ℕ n m
swap_numbers m n = ground arith

swap-then : (o p : Ordering) → swap (then o p) ≡ then (swap o) (swap p)
swap-then Ordering.lt p = refl
swap-then Ordering.eq p = refl
swap-then Ordering.gt p = refl

pub swap_texts : (s t : String) → swap (compare s t) ≡ compare t s
swap_texts [] [] = rw compare.nil-nil refl
swap_texts [] (d ∷ t) = rw (compare.nil-cons d t, compare.cons-nil d t) refl
swap_texts (c ∷ s) [] = rw (compare.nil-cons c s, compare.cons-nil c s) refl
swap_texts (c ∷ s) (d ∷ t) =
    rw (compare.cons-cons c d s t, compare.cons-cons d c t s)
      (rw swap-then (rw (swap_numbers (code c) (code d), swap_texts s t) refl))
