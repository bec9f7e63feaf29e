-- ===== src/DeadLetter/Kept.antt =====
-- How many dead letters are kept.
use kytos.Prelude.{
  ℕ, suc, ◌≤◌, ◌<◌, ◌≡◌, refl, ◌⊎◌, inl, inr, String, true, some, [], ◌∷◌, leb, length, arith,
  str_eq, Bool-cases, if◌then◌else◌,
}
use kytos.Errors.{ok}
use kytos.Dict.{Dict, lookup, insert, lookup-insert_self, lookup-insert_ne}
use kytos.Events.{KytosEvent}
use kytos.DeadLetter.{DeadLetter, or_empty, events_of, set_events, add_event, make_room}

-- Under no name are there more than `n` events.
abbrev pub IsBounded : {V : Type 0} → ℕ → Dict (Dict V) → Type 0
IsBounded n [] = Unit
IsBounded n ((name, events) ∷ more) = (length events ≤ n) × IsBounded n more

-- Without the oldest, if there are `n` or more.
abbrev pub with_room : {V : Type 0} → ℕ → Dict V → Dict V
with_room n [] = []
with_room n (oldest ∷ rest) = if leb n (length (oldest ∷ rest)) then rest else oldest ∷ rest

module _ {V : Type 0} where
  IsBounded-insert :
      (n : ℕ) (name : String) (events : Dict V) (d : Dict (Dict V))
      → length events ≤ n
      → IsBounded n d
      → IsBounded n (insert name events d)
  unfolding insert
  IsBounded-insert n name events [] h v = (h, tt)
  IsBounded-insert n name events ((other, old) ∷ later) h v =
      elim (Bool-cases (str_eq other name)) [
        | inl e ↦ rw e (h, v.1)
        | inr e ↦ rw e (v.0, IsBounded-insert n name events later h v.1)
      ]

  IsBounded-lookup :
      (n : ℕ) (name : String) (d : Dict (Dict V))
      → IsBounded n d
      → length (or_empty (lookup name d)) ≤ n
  unfolding lookup
  IsBounded-lookup n name [] v = omega arith
  IsBounded-lookup n name ((other, events) ∷ later) v = elim (Bool-cases (str_eq other name)) [
    | inl e ↦ rw e v.0
    | inr e ↦ rw e (IsBounded-lookup n name later v.1)
  ]

  length-insert : (k : String) (v : V) (d : Dict V) → length (insert k v d) ≤ suc (length d)
  unfolding insert
  length-insert k v [] = omega arith
  length-insert k v ((other, old) ∷ later) = ground (arith, length-insert k v later)

  length-with_room : (n : ℕ) (d : Dict V) → 0 < n → length d ≤ n → length (with_room n d) < n
  length-with_room n [] p h = p
  length-with_room n (oldest ∷ rest) p h = ground arith

  make_room-with_room :
      (n : ℕ) (d : Dict (KytosEvent V)) → 0 < n → make_room n d ≡ ok (with_room n d)
  make_room-with_room n [] p = ground arith
  make_room-with_room n (oldest ∷ rest) p = ground arith

  same_name :
      (name other : String) (new : Dict V) (d : Dict (Dict V))
      → (str_eq name other ≡ true)
        ⊎ (or_empty (lookup other (insert name new d)) ≡ or_empty (lookup other d))
  same_name name other new d = elim (Bool-cases (str_eq name other)) [
    | inl e ↦ inl e
    | inr e ↦ inr (rw (lookup-insert_ne name other new d e) refl)
  ]

module _ {V Q : Type 0} where
  abbrev pub after : KytosEvent V → DeadLetter V Q → DeadLetter V Q
  after event s =
      set_events event.name
        (insert event.id event (with_room s.max_len_per_event_name (events_of event.name s))) s

  -- If at least one event may be kept under a name, and no more are: an event is always added, it
  -- is found under its name and id, the oldest one of its name is dropped exactly if there is no
  -- room, nothing else changes under any name, and still no more events are kept than may be.
  pub add_event_lem :
      (event : KytosEvent V) (other : String) (s : DeadLetter V Q)
      → 0 < s.max_len_per_event_name
      → IsBounded s.max_len_per_event_name s.dict
      → (add_event event s ≡ (ok tt, after event s))
        × IsBounded s.max_len_per_event_name (after event s).dict
        × (lookup event.id (events_of event.name (after event s)) ≡ some event)
        × ((str_eq event.name other ≡ true) ⊎ (events_of other (after event s) ≡ events_of other s))
  unfolding add_event
  add_event_lem event other s p v =
      let room = with_room s.max_len_per_event_name (events_of event.name s) in
      let fits : length room < s.max_len_per_event_name =
        length-with_room s.max_len_per_event_name (events_of event.name s) p
          (IsBounded-lookup s.max_len_per_event_name event.name s.dict v) in
      (
        rw (make_room-with_room s.max_len_per_event_name (events_of event.name s) p) refl,
        IsBounded-insert s.max_len_per_event_name event.name (insert event.id event room) s.dict
            (omega (arith, length-insert event.id event room, fits)) v,
        rw lookup-insert_self (lookup-insert_self event.id event room),
        same_name event.name other (insert event.id event room) s.dict,
      )
