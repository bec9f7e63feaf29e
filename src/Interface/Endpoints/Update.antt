-- ===== src/Interface/Endpoints/Update.antt =====
-- An update of an endpoint.
use kytos.Prelude.{
  ℕ, ◌≡◌, refl, sym, ap, eq_iff, String, Option, none, some, [], ◌∷◌, ◌++◌, str_eq, Bool-cases, inl,
  inr, if◌then◌else◌,
}
use text.Mathlib.TextPositions.{eq_refl}
use kytos.Interface.Endpoints.{
  Endpoints, get_endpoint, add_endpoint, delete_endpoint, update_endpoint, delete_if,
}

-- No endpoint stands twice.
abbrev pub IsDistinct : Endpoints → Type 0
IsDistinct [] = Unit
IsDistinct ((endpoint, at) ∷ rest) = (get_endpoint endpoint rest ≡ none) × IsDistinct rest

-- The endpoints besides one.
abbrev pub others : String → Endpoints → Endpoints
others endpoint [] = []
others endpoint ((other, at) ∷ rest) =
    if str_eq endpoint other then others endpoint rest else (other, at) ∷ others endpoint rest

others-none :
    (endpoint : String) (rest : Endpoints)
    → get_endpoint endpoint rest ≡ none
    → others endpoint rest ≡ rest
unfolding get_endpoint
others-none endpoint [] h = refl
others-none endpoint ((other, at) ∷ rest) h = elim (Bool-cases (str_eq endpoint other)) [
  | inl e ↦ cc (rw e at h)
  | inr e ↦ rw e (ap (λ l. (other, at) ∷ l) (others-none endpoint rest (rw e at h)))
]

get_endpoint-others :
    (endpoint : String) (rest : Endpoints) → get_endpoint endpoint (others endpoint rest) ≡ none
unfolding get_endpoint
get_endpoint-others endpoint [] = refl
get_endpoint-others endpoint ((other, at) ∷ rest) = elim (Bool-cases (str_eq endpoint other)) [
  | inl e ↦ rw e (get_endpoint-others endpoint rest)
  | inr e ↦ rw (e, e) (get_endpoint-others endpoint rest)
]

delete_endpoint-others :
    (endpoint : String) (rest : Endpoints)
    → IsDistinct rest
    → delete_endpoint endpoint rest ≡ others endpoint rest
unfolding delete_endpoint
delete_endpoint-others endpoint [] v = refl
delete_endpoint-others endpoint ((other, at) ∷ rest) v = elim (Bool-cases (str_eq endpoint other)) [
  | inl e ↦ rw e (sym (others-none endpoint rest (rw ((eq_iff endpoint other).0 e) v.0)))
  | inr e ↦ rw e (ap (λ l. (other, at) ∷ l) (delete_endpoint-others endpoint rest v.1))
]

delete_if-others :
    (o : Option (String × ℕ)) (endpoint : String) (endpoints : Endpoints)
    → IsDistinct endpoints
    → get_endpoint endpoint endpoints ≡ o
    → delete_if o endpoint endpoints ≡ others endpoint endpoints
delete_if-others none endpoint endpoints v h = sym (others-none endpoint endpoints h)
delete_if-others (some exists) endpoint endpoints v h = delete_endpoint-others endpoint endpoints v

-- If no endpoint stands twice, an update leaves the other endpoints as they are, in their order,
-- and then the endpoint with the new time, whether or not it was there; to add it again changes
-- nothing.
pub update_endpoint_lem :
    (endpoint : String) (now later : ℕ) (endpoints : Endpoints)
    → IsDistinct endpoints
    → (update_endpoint endpoint now endpoints ≡ others endpoint endpoints ++ (endpoint, now) ∷ [])
      × (add_endpoint endpoint later (others endpoint endpoints ++ (endpoint, now) ∷ [])
          ≡ others endpoint endpoints ++ (endpoint, now) ∷ [])
unfolding update_endpoint add_endpoint
update_endpoint_lem endpoint now later endpoints v = (
  rw (delete_if-others (get_endpoint endpoint endpoints) endpoint endpoints v refl)
      (rw (get_endpoint-others endpoint endpoints) refl),
  rw (found (others endpoint endpoints) (get_endpoint-others endpoint endpoints)) refl,
)
  where
    found :
        (rest : Endpoints)
        → get_endpoint endpoint rest ≡ none
        → get_endpoint endpoint (rest ++ (endpoint, now) ∷ []) ≡ some (endpoint, now)
    found [] h = unfold get_endpoint in rw (eq_refl endpoint) refl
    found ((other, at) ∷ rest) h = elim (Bool-cases (str_eq endpoint other)) [
      | inl e ↦ unfold get_endpoint in cc (rw e at h)
      | inr e ↦ unfold get_endpoint in rw e (found rest (rw e at h))
    ]
