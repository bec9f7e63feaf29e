-- ===== src/Connection/Failed.antt =====
-- What `send` leaves when the transport fails.
use kytos.Prelude.{
  ◌≡◌, refl, ap, ◌⊎◌, inl, inr, true, false, not, ◌&&◌, Option, none, some, Bool-cases, arith,
}
use kytos.Errors.{Result, ok, err, Errno, os_error}
use kytos.Connection.{
  Connection, ConnectionState, new, setup, established, failed, finished, has_transport, is_over,
  is_finished, is_alive, send, close, tolerated, after_close, close_given, raise_after,
}
use kytos.Connection.Closed.{close-state, finished-is_alive}

module _ {T : Type 0} (close_transport : T → T × Option Errno) where
  -- To close a connection returns or raises an OSError.
  abbrev ClosedOr : Result (Unit {0}) → Type 0
  ClosedOr out = (out ≡ ok tt) ⊎ ((f : Errno) × (out ≡ err (os_error f)))

  after_close-ClosedOr :
      (c : Connection T) (out : T × Option Errno) → ClosedOr (after_close close_transport c out).0
  after_close-ClosedOr c (t, none) = inl refl
  after_close-ClosedOr c (t, some e) = elim (Bool-cases (tolerated e)) [
    | inl h ↦ inl (rw h refl)
    | inr h ↦ inr (e, rw h refl)
  ]

  close_given-ClosedOr :
      (c : Connection T) (o : Option T) → ClosedOr (close_given close_transport c o).0
  close_given-ClosedOr c none = inl refl
  close_given-ClosedOr c (some t) = after_close-ClosedOr c (close_transport t)

  close-ClosedOr : (c : Connection T) → ClosedOr (close close_transport c).0
  unfolding close
  close-ClosedOr c = close_given-ClosedOr (record c { state = finished }) c.transport

  module _ {B : Type 0} (write_transport : B → T → T × Option Errno) where
    raise_after-os_error :
        (e : Errno) (out : Result (Unit {0}) × Connection T)
        → ClosedOr out.0
        → (f : Errno) × (raise_after close_transport write_transport e out
            ≡ (err (os_error f), out.1))
    raise_after-os_error e (ok _, c) h = (e, refl)
    raise_after-os_error e (err x, c) (inl h) = cc
    raise_after-os_error e (err x, c) (inr (f, h)) = (f, ap (λ r. (r, c)) h)

    -- A write that fails ends in an OSError, and the connection is not alive.
    pub send-os_error :
        (buffer : B) (c : Connection T) (t t' : T) (e : Errno)
        → is_alive c ≡ true
        → c.transport ≡ some t
        → write_transport buffer t ≡ (t', some e)
        → (f : Errno) × (c' : Connection T) × (send close_transport write_transport buffer c
            ≡ (err (os_error f), c'))
          × (is_alive c' ≡ false)
    unfolding send
    send-os_error buffer c t t' e alive there fails =
        let (f, h) =
          raise_after-os_error e (close close_transport (record c { transport = some t' }))
            (close-ClosedOr (record c { transport = some t' })) in
        (
          f,
          (close close_transport (record c { transport = some t' })).1,
          rw alive (rw there (rw fails h)),
          finished-is_alive close_transport
              (close close_transport (record c { transport = some t' })).1
              (close-state close_transport (record c { transport = some t' })),
        )

pub alive-is_finished :
    {T : Type 0} (c : Connection T) → is_alive c ≡ true → is_finished c.state ≡ false
unfolding is_alive
alive-is_finished c h = go c.state (both c.transport c.state h)
  where
    both :
        {T : Type 0} (o : Option T) (q : ConnectionState)
        → (has_transport o && not (is_over q)) ≡ true
        → is_over q ≡ false
    both o q h = ground arith

    go : (q : ConnectionState) → is_over q ≡ false → is_finished q ≡ false
    go finished h = cc
    go new h = refl
    go setup h = refl
    go established h = refl
    go failed h = refl
