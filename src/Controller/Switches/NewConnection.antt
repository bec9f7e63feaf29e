-- ===== src/Controller/Switches/NewConnection.antt =====
-- Two connections from one address.
use kytos.Prelude.{ℕ, ◌≡◌, refl, ap, ◌∙◌, Option, none, some}
use kytos.Errors.{ok, err, Errno, attribute_error}
use kytos.Table.{find-store_self, number_eq, text_eq, pair_eq}
use kytos.Controller.Switches.{
  Controller, id_of, create_or_update_connection, get_connection_by_id, new_connection,
}

module _ {T : Type 0} (close_transport : T → T × Option Errno) where
  first_run :
      (r : ℕ) (s : Controller T)
      → get_connection_by_id (id_of r s) s ≡ none
      → new_connection close_transport r s ≡ (ok tt, create_or_update_connection r s)
  unfolding new_connection
  first_run r s fresh = rw fresh refl

  second_run :
      (r old : ℕ) (s : Controller T)
      → get_connection_by_id (id_of r s) s ≡ some old
      → new_connection close_transport r s ≡ (err attribute_error, s)
  unfolding new_connection
  second_run r old s known = rw known refl

  -- The first connection from an address is stored; when the handler gets a second one from the
  -- same address, it raises an AttributeError and nothing changes: the old one stays registered and
  -- is not closed.
  pub new_connection_lem :
      (r again : ℕ) (s : Controller T)
      → get_connection_by_id (id_of r s) s ≡ none
      → id_of again s ≡ id_of r s
      → (new_connection close_transport r s ≡ (ok tt, create_or_update_connection r s))
        × (get_connection_by_id (id_of r s) (create_or_update_connection r s) ≡ some r)
        × (new_connection close_transport again (create_or_update_connection r s)
            ≡ (err attribute_error, create_or_update_connection r s))
  new_connection_lem r again s fresh same = (
    first_run r s fresh,
    stored,
    second_run again r (create_or_update_connection r s) (kept ∙ stored),
  )
    where
      stored : get_connection_by_id (id_of r s) (create_or_update_connection r s) ≡ some r
      stored =
          unfold get_connection_by_id in
          unfold create_or_update_connection in find-store_self (id_of r s) r s.connections

      kept :
          get_connection_by_id
            (id_of again (create_or_update_connection r s))
            (create_or_update_connection r s)
          ≡ get_connection_by_id (id_of r s) (create_or_update_connection r s)
      kept =
          unfold create_or_update_connection in
          ap (λ k. get_connection_by_id k (create_or_update_connection r s)) same
