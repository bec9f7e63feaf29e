-- ===== src/Controller/Napps/Reload.antt =====
-- A NApp that is loaded and unloaded.
use kytos.Prelude.{
  ◌≡◌, refl, ap, sym, ◌∙◌, String, true, none, some, List, ◌∷◌, ◌++◌, Bool-cases, inl, inr,
}
use kytos.Errors.{Error, ok, err}
use kytos.Dict.{distinct_keys, Dict, lookup}
use kytos.Table.{
  Eq, Table, same_refl, find, store, drop_key, find-store, find-store_self, find-drop_key, text_eq,
  pair_eq,
}
use kytos.ApiServer.{
  napp_prefix, get_decorated_functions, register_napp_endpoints, remove_napp_endpoints,
}
use kytos.ApiServer.Removed.{none_within, left_over, remove_napp_endpoints-register_napp_endpoints}
use kytos.Controller.Napps.{
  imported, RunningNapp, Napps, Outside, listed, shutdown_event, add_listeners, remove_listeners,
  load_napp, unload_napp, put_napp, with_endpoints,
}
use kytos.Controller.Napps.Removal.{
  none_empty, all_new, remove_listeners-add_listeners, lookup-add_listeners_new,
}

-- To store under a key that is not there and to drop it changes no lookup.
find-drop_key-store :
    {K V : Type 0} ⦃e : Eq K⦄ (k j : K) (v : V) (d : Table K V)
    → find k d ≡ none
    → find j (drop_key k (store k v d)) ≡ find j d
find-drop_key-store ⦃e⦄ k j v d h = elim (Bool-cases (e.same k j)) [
  | inl same ↦
      find-drop_key k j (store k v d)
      ∙ rw same (sym h ∙ ap (λ i. find i d) ((e.same_iff k j).0 same))
  | inr other ↦ find-drop_key k j (store k v d) ∙ rw other (find-store k j v d ∙ rw other refl)
]

module _ {L F O W M : Type 0} ⦃e : Eq L⦄ (outside : Outside L F O W M) where
  -- The NApp as it is loaded, and the controller with it, where `w` is the state that its `Main` left.
  abbrev pub marked_napp : RunningNapp L F O → RunningNapp L F O
  marked_napp napp = with_endpoints outside napp

  abbrev pub loaded : String × String → RunningNapp L F O → W → Napps L F O W → Napps L F O W
  unfolding register_napp_endpoints add_listeners
  loaded key napp w s = put_napp outside key (marked_napp napp) (record s { world = w })

  load_run :
      (username name : String) (m : M) (napp : RunningNapp L F O) (w v : W) (s : Napps L F O W)
      → find (username, name) s.napps ≡ none
      → outside.import_napp username name s.world ≡ (imported m, w)
      → outside.make m w ≡ (some napp, v)
      → load_napp outside username name s ≡ (ok tt, loaded (username, name) napp v s)
  unfolding load_napp loaded
  load_run username name m napp w v s unknown imports makes =
      rw unknown (rw imports (rw makes refl))

  abbrev unloaded :
      String × String → RunningNapp L F O → Dict (List L) → W → Napps L F O W → Napps L F O W
  unfolding remove_napp_endpoints
  unloaded key napp d w s = record s {
    napps = drop_key key s.napps;
    events_listeners = d;
    routes = remove_napp_endpoints napp.username napp.name s.routes;
    world = w;
  }

  unload_run :
      (username name : String) (napp : RunningNapp L F O) (fn : L) (others : List L)
      (d : Dict (List L)) (w : W) (s : Napps L F O W)
      → find (username, name) s.napps ≡ some napp
      → lookup (shutdown_event username name) s.events_listeners ≡ some (fn ∷ others)
      → outside.call fn (shutdown_event username name) s.world ≡ (ok tt, w)
      → remove_listeners napp.listeners s.events_listeners ≡ (ok tt, d)
      → unload_napp outside username name s ≡ (ok tt, unloaded (username, name) napp d w s)
  unfolding unload_napp unloaded
  unload_run username name napp fn others d w s there own calls removes =
      rw there (rw own (rw calls (rw removes refl)))

  -- If a NApp that is not loaded can be imported and made, its own listener of its shutdown is the
  -- only one and returns, its listeners are new, and no route is under its prefix, then to load it
  -- and to unload it both return; afterwards every NApp and every event's listeners are as they were,
  -- and so are the routes, but for what `remove_napp_endpoints` leaves of the NApp's.
  pub unload_napp-load_napp :
      (username name : String) (m : M) (napp : RunningNapp L F O) (fn : L) (others : List L)
      (w v x : W) (s : Napps L F O W)
      → find (username, name) s.napps ≡ none
      → outside.import_napp username name s.world ≡ (imported m, w)
      → outside.make m w ≡ (some napp, v)
      → distinct_keys napp.listeners ≡ true
      → none_empty s.events_listeners ≡ true
      → all_new napp.listeners (λ j. listed j s.events_listeners) ≡ true
      → lookup (shutdown_event username name) s.events_listeners ≡ none
      → lookup (shutdown_event username name) napp.listeners ≡ some (fn ∷ others)
      → outside.call fn (shutdown_event username name) (outside.start (marked_napp napp) v)
        ≡ (ok tt, x)
      → none_within (napp_prefix napp.username napp.name) s.routes ≡ true
      → (s' s'' : Napps L F O W) × (load_napp outside username name s ≡ (ok tt, s'))
        × (unload_napp outside username name s' ≡ (ok tt, s''))
        × ((key : String × String) → find key s''.napps ≡ find key s.napps)
        × ((event : String) → lookup event s''.events_listeners ≡ lookup event s.events_listeners)
        × (s''.routes
            ≡ s.routes
              ++ left_over
                  (napp_prefix napp.username napp.name)
                  (get_decorated_functions (marked_napp napp).attributes))
  unfolding loaded unloaded
  unload_napp-load_napp username name m napp fn others w v x s unknown imports makes keys full new
        first own calls clear =
      let (d, removes, same) =
        remove_listeners-add_listeners napp.listeners s.events_listeners keys full new in
      (
        loaded (username, name) napp v s,
        unloaded (username, name) (marked_napp napp) d x (loaded (username, name) napp v s),
        load_run username name m napp w v s unknown imports makes,
        unload_run username name (marked_napp napp) fn others d x (loaded (username, name) napp v s)
            (find-store_self (username, name) (marked_napp napp) s.napps)
            (lookup-add_listeners_new napp.listeners s.events_listeners
              (shutdown_event username name) (fn ∷ others) keys first own)
            calls removes,
        λ key. find-drop_key-store (username, name) key (marked_napp napp) s.napps unknown,
        same,
        remove_napp_endpoints-register_napp_endpoints napp.username napp.name
            (marked_napp napp).attributes s.routes clear,
      )

  -- If the first listener of the shutdown of a NApp raises, so does `unload_napp`: the NApp is no
  -- longer among the loaded ones, but all listeners and routes are still there, and to unload it
  -- again only returns and changes nothing.
  pub unload_napp_lem :
      (username name : String) (napp : RunningNapp L F O) (fn : L) (others : List L) (x : Error)
      (w : W) (s : Napps L F O W)
      → find (username, name) s.napps ≡ some napp
      → lookup (shutdown_event username name) s.events_listeners ≡ some (fn ∷ others)
      → outside.call fn (shutdown_event username name) s.world ≡ (err x, w)
      → (s' : Napps L F O W) × (unload_napp outside username name s ≡ (err x, s'))
        × (find (username, name) s'.napps ≡ none)
        × (s'.events_listeners ≡ s.events_listeners)
        × (s'.routes ≡ s.routes)
        × (unload_napp outside username name s' ≡ (ok tt, s'))
  unfolding unload_napp
  unload_napp_lem username name napp fn others x w s there own raises = (
    record s { napps = drop_key (username, name) s.napps; world = w },
    rw there (rw own (rw raises refl)),
    dropped,
    refl,
    refl,
    rw dropped refl,
  )
    where
      dropped : find (username, name) (drop_key (username, name) s.napps) ≡ none
      dropped =
          find-drop_key (username, name) (username, name) s.napps
          ∙ rw (same_refl {K = String × String} (username, name)) refl
