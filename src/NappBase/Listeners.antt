-- ===== src/NappBase/Listeners.antt =====
-- What the listeners of every NApp begin with.
use Prim.Native.String.{◌++◌ as concat}
use kytos.Prelude.{
  ◌≡◌, refl, ap, sym, ◌∙◌, String, true, false, some, List, [], ◌∷◌, ◌++◌, str_eq, eq_iff,
  Bool-cases, inl, inr,
}
use kytos.Dict.{
  Dict, lookup, insert, distinct_keys, lookup-insert, lookup-insert_self, lookup-insert_ne,
  distinct_keys-insert,
}
use kytos.ApiServer.Text.{starts_with, starts_with-append}
use kytos.Controller.Napps.{shutdown_event}
use kytos.NappBase.{extended, listen_to_each, listen_all, build_listeners}

own_event :
    (username name : String) → str_eq (shutdown_event username name) "kytos/core.shutdown" ≡ false
own_event username name =
    elim (Bool-cases (str_eq (shutdown_event username name) "kytos/core.shutdown")) [
      | inl e ↦
          e
          ∙ sym (starts_with-append "kytos/core.shutdown." (concat username (concat "/" name)))
          ∙ ap (starts_with "kytos/core.shutdown.")
              ((eq_iff (shutdown_event username name) "kytos/core.shutdown").0 e)
      | inr e ↦ e
    ]

module _ {L : Type 0} where
  -- Each key is there once, and the first listener of the event is `h`.
  abbrev Heads : L → String → Dict (List L) → Type 0
  unfolding lookup distinct_keys
  Heads h event d =
      (distinct_keys d ≡ true) × (others : List L) × (lookup event d ≡ some (h ∷ others))

  one-Heads :
      (h method : L) (event other : String) (d : Dict (List L))
      → Heads h event d
      → Heads h event (insert other (extended (lookup other d) method) d)
  unfolding Heads
  one-Heads h method event other d (once, others, there) = elim (Bool-cases (str_eq other event)) [
    | inl e ↦ (
      distinct_keys-insert other (extended (lookup other d) method) d once,
      others ++ method ∷ [],
      lookup-insert other event (extended (lookup other d) method) d
          ∙ rw e (
              ap (λ k. some (extended (lookup k d) method)) ((eq_iff other event).0 e)
              ∙ ap (λ o. some (extended o method)) there),
    )
    | inr e ↦ (
      distinct_keys-insert other (extended (lookup other d) method) d once,
      others,
      lookup-insert_ne other event (extended (lookup other d) method) d e ∙ there,
    )
  ]

  listen_to_each-Heads :
      (h method : L) (event : String) (events : List String) (d : Dict (List L))
      → Heads h event d
      → Heads h event (listen_to_each method events d)
  unfolding listen_to_each
  listen_to_each-Heads h method event [] d heads = heads
  listen_to_each-Heads h method event (other ∷ events) d heads =
      listen_to_each-Heads h method event events _ (one-Heads h method event other d heads)

  listen_all-Heads :
      (h : L) (event : String) (methods : List (L × List String)) (d : Dict (List L))
      → Heads h event d
      → Heads h event (listen_all methods d)
  unfolding listen_all
  listen_all-Heads h event [] d heads = heads
  listen_all-Heads h event ((method, events) ∷ methods) d heads =
      listen_all-Heads h event methods _ (listen_to_each-Heads h method event events d heads)

  first_listeners : String → String → L → Dict (List L)
  first_listeners username name h =
      insert (shutdown_event username name) (h ∷ []) (insert "kytos/core.shutdown" (h ∷ []) [])

  -- Whatever methods a NApp has and whatever events they listen to, the listeners have each event
  -- once, and the handler of the shutdown is the first for both events of a shutdown.
  pub build_listeners_lem :
      (username name : String) (h : L) (methods : List (L × List String))
      → (distinct_keys (build_listeners username name h methods) ≡ true)
        × ((others : List L) × (lookup
                (shutdown_event username name)
                (build_listeners username name h methods)
              ≡ some (h ∷ others)))
        × ((others : List L) × (lookup "kytos/core.shutdown"
                (build_listeners username name h methods)
              ≡ some (h ∷ others)))
  unfolding build_listeners first_listeners Heads
  build_listeners_lem username name h methods =
      let once =
        distinct_keys-insert (shutdown_event username name) (h ∷ [])
          (insert "kytos/core.shutdown" (h ∷ []) [])
          (distinct_keys-insert "kytos/core.shutdown" (h ∷ []) [] (unfold distinct_keys in refl)) in
      let (keys, others, own) =
        listen_all-Heads h (shutdown_event username name) methods (first_listeners username name h)
          (
            once,
            [],
            lookup-insert_self (shutdown_event username name) (h ∷ [])
                (insert "kytos/core.shutdown" (h ∷ []) []),
          ) in
      let (keys', others', all) =
        listen_all-Heads h "kytos/core.shutdown" methods (first_listeners username name h) (
          once,
          [],
          lookup-insert_ne (shutdown_event username name) "kytos/core.shutdown" (h ∷ [])
                (insert "kytos/core.shutdown" (h ∷ []) []) (own_event username name)
              ∙ lookup-insert_self "kytos/core.shutdown" (h ∷ []) [],
        ) in
      (keys, (others, own), (others', all))
