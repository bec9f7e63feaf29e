-- ===== src/Dict.antt =====
-- Python's dicts with text keys, as association lists in the order of insertion.
use kytos.Prelude.{
  ◌≡◌, refl, String, Bool, true, false, not, ◌&&◌, Option, none, some, List, [], ◌∷◌, str_eq,
  eq_iff, arith, if◌then◌else◌, length, ◌==◌,
}

abbrev pub Dict {ℓ} : Type ℓ → Type ℓ
Dict V = List (String × V)

module _ {ℓ} {V : Type ℓ} where
  -- d.get(k)
  unfoldable pub lookup : String → Dict V → Option V
  lookup key [] = none
  lookup key ((other, found) ∷ later) = if str_eq other key then some found else lookup key later

  -- d[k] = v
  unfoldable pub insert : String → V → Dict V → Dict V
  insert key new [] = (key, new) ∷ []
  insert key new ((other, old) ∷ later) =
      if str_eq other key then (other, new) ∷ later else (other, old) ∷ insert key new later

  -- d.pop(k, None), without its result
  unfoldable pub delete : String → Dict V → Dict V
  delete k [] = []
  delete k ((j, w) ∷ d) = if str_eq j k then delete k d else (j, w) ∷ delete k d

  -- k in d
  unfoldable pub has_key : String → Dict V → Bool
  has_key k [] = false
  has_key k ((j, v) ∷ d) = if str_eq j k then true else has_key k d

  pub lookup-insert :
      (k j : String) (v : V) (d : Dict V)
      → lookup j (insert k v d) ≡ (if str_eq k j then some v else lookup j d)
  unfolding lookup insert
  lookup-insert k j v [] = refl
  lookup-insert k j v ((i, w) ∷ d) =
      ground (arith, eq_iff k j, eq_iff i k, eq_iff i j, lookup-insert k j v d)

  pub lookup-delete :
      (k j : String) (d : Dict V)
      → lookup j (delete k d) ≡ (if str_eq k j then none else lookup j d)
  unfolding lookup delete
  lookup-delete k j [] = ground arith
  lookup-delete k j ((i, w) ∷ d) =
      ground (arith, eq_iff k j, eq_iff i k, eq_iff i j, lookup-delete k j d)

  -- d == e: as many keys, and the same value under each, by the given test of values.
  unfoldable pub agrees : (V → V → Bool) → Dict V → Dict V → Bool
  unfolding lookup
  agrees same [] e = true
  agrees same ((k, v) ∷ d) e =
      elim (lookup k e) [ none ↦ false | some w ↦ same v w ] && agrees same d e

  unfoldable pub equal_dicts : (V → V → Bool) → Dict V → Dict V → Bool
  unfolding agrees
  equal_dicts same d e = (length d == length e) && agrees same d e

  pub insert-insert : (k : String) (v w : V) (d : Dict V) → insert k v (insert k w d) ≡ insert k v d
  unfolding insert
  insert-insert k v w [] = ground (arith, eq_iff k k)
  insert-insert k v w ((j, u) ∷ d) = ground (arith, insert-insert k v w d)

  -- To store what is there changes nothing.
  pub insert-lookup : (k : String) (v : V) (d : Dict V) → lookup k d ≡ some v → insert k v d ≡ d
  unfolding lookup insert
  insert-lookup k v [] h = cc
  insert-lookup k v ((j, w) ∷ d) h = ground (arith, insert-lookup k v d)

  pub lookup-insert_self : (k : String) (v : V) (d : Dict V) → lookup k (insert k v d) ≡ some v
  lookup-insert_self k v d = ground (arith, lookup-insert k k v d, eq_iff k k)

  pub lookup-insert_ne :
      (k j : String) (v : V) (d : Dict V)
      → str_eq k j ≡ false
      → lookup j (insert k v d) ≡ lookup j d
  lookup-insert_ne k j v d h = rw lookup-insert (rw h refl)

  -- Each key is there once, as in every dict.
  unfoldable pub distinct_keys : Dict V → Bool
  unfolding has_key
  distinct_keys [] = true
  distinct_keys ((k, v) ∷ d) = not (has_key k d) && distinct_keys d

  pub lookup-none_of_has_key : (k : String) (d : Dict V) → has_key k d ≡ false → lookup k d ≡ none
  unfolding lookup has_key
  lookup-none_of_has_key k [] h = refl
  lookup-none_of_has_key k ((j, v) ∷ d) h = ground (arith, lookup-none_of_has_key k d)

  has_key-insert :
      (k j : String) (v : V) (d : Dict V)
      → has_key j (insert k v d) ≡ (if str_eq k j then true else has_key j d)
  unfolding has_key insert
  has_key-insert k j v [] = refl
  has_key-insert k j v ((i, w) ∷ d) =
      ground (arith, eq_iff k j, eq_iff i k, eq_iff i j, has_key-insert k j v d)

  pub distinct_keys-insert :
      (k : String) (v : V) (d : Dict V)
      → distinct_keys d ≡ true
      → distinct_keys (insert k v d) ≡ true
  unfolding distinct_keys has_key insert
  distinct_keys-insert k v [] h = refl
  distinct_keys-insert k v ((i, w) ∷ d) h =
      ground (arith, h, eq_iff k i, eq_iff i k, has_key-insert k i v d, distinct_keys-insert k v d)

  pub has_key-of_lookup :
      (k : String) (v : V) (d : Dict V) → lookup k d ≡ some v → has_key k d ≡ true
  unfolding lookup has_key
  has_key-of_lookup k v [] h = cc
  has_key-of_lookup k v ((j, w) ∷ d) h = ground (arith, h, has_key-of_lookup k v d)

  pub has_key-delete :
      (k j : String) (d : Dict V)
      → has_key j (delete k d) ≡ (if str_eq k j then false else has_key j d)
  unfolding has_key delete
  has_key-delete k j [] = ground arith
  has_key-delete k j ((i, w) ∷ d) =
      ground (arith, eq_iff k j, eq_iff i k, eq_iff i j, has_key-delete k j d)
