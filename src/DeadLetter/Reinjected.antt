-- ===== src/DeadLetter/Reinjected.antt =====
-- What a PATCH with ids puts back.
use kytos.Prelude.{◌+◌, ◌≡◌, refl, ap, ◌∙◌, String, true, false, some, List, [], ◌∷◌, map, arith}
use kytos.Errors.{ok}
use kytos.Buffers.{KytosEventBuffer, put}
use kytos.Dict.{
  Dict, lookup, insert, delete, has_key, insert-insert, insert-lookup, lookup-insert_self,
}
use kytos.Events.{KytosEvent}
use kytos.DeadLetter.{
  DeadLetter, QueueBufferName, app, msg_in, value, set_events, misses, put_into, reinjected,
  reinject, reinject_each, rest_patch,
}

-- The events under the ids, none of which is named twice.
abbrev pub Holds : {E : Type 0} → List String → List E → Dict E → Type 0
Holds [] [] d = Unit
Holds [] (e ∷ es) d = ⊥
Holds (id ∷ ids) [] d = ⊥
Holds (id ∷ ids) (e ∷ es) d = (lookup id d ≡ some e) × Holds ids es (delete id d)

abbrev pub delete_each : {E : Type 0} → List String → Dict E → Dict E
delete_each [] d = d
delete_each (id ∷ ids) d = delete_each ids (delete id d)

lookup-has_key :
    {E : Type 0} (k : String) (d : Dict E) (e : E) → lookup k d ≡ some e → has_key k d ≡ true
unfolding lookup has_key
lookup-has_key k [] e h = cc
lookup-has_key k ((j, v) ∷ d) e h = ground (arith, lookup-has_key k d e)

has_key-delete :
    {E : Type 0} (j k : String) (d : Dict E) → has_key k (delete j d) ≡ true → has_key k d ≡ true
unfolding has_key delete
has_key-delete j k [] h = h
has_key-delete j k ((i, v) ∷ d) h = ground (arith, has_key-delete j k d)

misses-delete :
    {V : Type 0} (j : String) (ids : List String) (d : Dict (KytosEvent V))
    → misses ids (delete j d) ≡ false
    → misses ids d ≡ false
unfolding misses
misses-delete j [] d h = refl
misses-delete j (id ∷ ids) d h = ground (arith, misses-delete j ids d, has_key-delete j id d)

Holds-misses :
    {V : Type 0} (ids : List String) (es : List (KytosEvent V)) (d : Dict (KytosEvent V))
    → Holds ids es d
    → misses ids d ≡ false
unfolding misses
Holds-misses [] es d h = refl
Holds-misses (id ∷ ids) [] d h = absurd h
Holds-misses (id ∷ ids) (e ∷ es) d h =
    rw (lookup-has_key id d e h.0) (misses-delete id ids d (Holds-misses ids es (delete id d) h.1))

module _ {V Q : Type 0} (queue_put : KytosEvent V → Q → Q) where
  abbrev pub put_all : String → List (KytosEvent V) → DeadLetter V Q → DeadLetter V Q
  put_all buffer_name [] s = s
  put_all buffer_name (e ∷ es) s = put_all buffer_name es (put_into queue_put buffer_name e s)

  reinject-some :
      (name id : String) (buffer : QueueBufferName) (s : DeadLetter V Q) (d : Dict (KytosEvent V))
      (e : KytosEvent V)
      → lookup name s.dict ≡ some d
      → lookup id d ≡ some e
      → reinject queue_put name id (value buffer) s
        ≡ put_into queue_put (value buffer) (reinjected e) (set_events name (delete id d) s)
  unfolding reinject
  reinject-some name id app s d e h k = rw (lookup-has_key name s.dict d h, h) (rw (k, h) refl)
  reinject-some name id msg_in s d e h k = rw (lookup-has_key name s.dict d h, h) (rw (k, h) refl)

  reinject_each-Holds :
      (name : String) (ids : List String) (buffer : QueueBufferName) (s : DeadLetter V Q)
      (d : Dict (KytosEvent V)) (es : List (KytosEvent V))
      → lookup name s.dict ≡ some d
      → Holds ids es d
      → reinject_each queue_put name ids (value buffer) s
        ≡ put_all (value buffer) (map reinjected es) (set_events name (delete_each ids d) s)
  unfolding reinject_each
  reinject_each-Holds name [] buffer s d [] h v = rw (insert-lookup name d s.dict h) refl
  reinject_each-Holds name [] buffer s d (e ∷ es) h v = absurd v
  reinject_each-Holds name (id ∷ ids) buffer s d [] h v = absurd v
  reinject_each-Holds name (id ∷ ids) app s d (e ∷ es) h v =
      rw (reinject-some name id app s d e h v.0) (
        reinject_each-Holds name ids app _ (delete id d) es (lookup-insert_self name _ s.dict) v.1
        ∙ rw insert-insert refl)
  reinject_each-Holds name (id ∷ ids) msg_in s d (e ∷ es) h v =
      rw (reinject-some name id msg_in s d e h v.0) (
        reinject_each-Holds name ids msg_in _ (delete id d) es (lookup-insert_self name _ s.dict)
          v.1
        ∙ rw insert-insert refl)

  rest_patch_run :
      (name id : String) (ids : List String) (buffer : QueueBufferName) (s : DeadLetter V Q)
      (d : Dict (KytosEvent V)) (es : List (KytosEvent V))
      → lookup name s.dict ≡ some d
      → Holds (id ∷ ids) es d
      → rest_patch queue_put name (id ∷ ids) buffer s ≡ (
        ok tt,
        put_all (value buffer) (map reinjected es) (set_events name (delete_each (id ∷ ids) d) s),
      )
  unfolding rest_patch
  rest_patch_run name id ids buffer s d es h v = rw (lookup-has_key name s.dict d h) (
      rw h (
        rw (Holds-misses (id ∷ ids) es d v)
          (ap (λ s'. (ok tt, s')) (reinject_each-Holds name (id ∷ ids) buffer s d es h v))))

  -- Puts into one buffer, each event with its count one higher.
  abbrev pub put_counted : List (KytosEvent V) → KytosEventBuffer Q → KytosEventBuffer Q
  put_counted [] b = b
  put_counted (e ∷ es) b =
      put_counted es (put queue_put (record e { reinjections = e.reinjections + 1 }) b)

  -- The buffers afterwards: the chosen one has the events, the other one is as it was.
  abbrev pub IsPut :
      QueueBufferName → List (KytosEvent V) → DeadLetter V Q → DeadLetter V Q → Type 0
  IsPut QueueBufferName.app es s s' = (s'.app ≡ put_counted es s.app) × (s'.msg_in ≡ s.msg_in)
  IsPut QueueBufferName.msg_in es s s' = (s'.app ≡ s.app) × (s'.msg_in ≡ put_counted es s.msg_in)

  put_all-IsPut :
      (buffer : QueueBufferName) (es : List (KytosEvent V)) (s : DeadLetter V Q)
      → IsPut buffer es s (put_all (value buffer) (map reinjected es) s)
        × ((put_all (value buffer) (map reinjected es) s).dict ≡ s.dict)
        × ((put_all (value buffer) (map reinjected es) s).max_len_per_event_name
            ≡ s.max_len_per_event_name)
  put_all-IsPut app [] s = ((refl, refl), refl, refl)
  put_all-IsPut msg_in [] s = ((refl, refl), refl, refl)
  put_all-IsPut app (e ∷ es) s = put_all-IsPut app es (put_into queue_put "app" (reinjected e) s)
  put_all-IsPut msg_in (e ∷ es) s =
      put_all-IsPut msg_in es (put_into queue_put "msg_in" (reinjected e) s)

  -- If the ids each name an event that is kept under the name, and none does twice: the handler
  -- replies; exactly these events are gone from the dead letters; they were put into the chosen buffer
  -- in the order of the ids, each with its count of reinjections one higher; and the other buffer is
  -- as it was.
  pub rest_patch_lem :
      (name id : String) (ids : List String) (buffer : QueueBufferName) (s : DeadLetter V Q)
      (d : Dict (KytosEvent V)) (es : List (KytosEvent V))
      → lookup name s.dict ≡ some d
      → Holds (id ∷ ids) es d
      → (s' : DeadLetter V Q) × (rest_patch queue_put name (id ∷ ids) buffer s ≡ (ok tt, s'))
        × (s'.dict ≡ insert name (delete_each (id ∷ ids) d) s.dict)
        × IsPut buffer es s s'
  rest_patch_lem name id ids app s d es h v =
      let (buffers, same, _) =
        put_all-IsPut app es (set_events name (delete_each (id ∷ ids) d) s) in
      (_, rest_patch_run name id ids app s d es h v, same, buffers)
  rest_patch_lem name id ids msg_in s d es h v =
      let (buffers, same, _) =
        put_all-IsPut msg_in es (set_events name (delete_each (id ∷ ids) d) s) in
      (_, rest_patch_run name id ids msg_in s d es h v, same, buffers)
