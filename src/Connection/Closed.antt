-- ===== src/Connection/Closed.antt =====
-- What can be done with a connection that was closed.
use kytos.Prelude.{◌≡◌, refl, Bool, true, false, ◌&&◌, Option, none, some, if◌then◌else◌}
use kytos.Errors.{Result, ok, err, Errno}
use kytos.Connection.{
  Connection, finished, has_transport, is_alive, is_established, close, close_given, after_close,
  send, write_given, after_write, raise_after,
}

module _ {T : Type 0} (close_transport : T → T × Option Errno) where
  after_close-state :
      (c : Connection T) (out : T × Option Errno)
      → (after_close close_transport c out).1.state ≡ c.state
  after_close-state c (t, none) = refl
  after_close-state c (t, some e) = refl

  close_given-state :
      (c : Connection T) (t : Option T) → (close_given close_transport c t).1.state ≡ c.state
  close_given-state c none = refl
  close_given-state c (some t) = after_close-state c (close_transport t)

  pub close-state : (c : Connection T) → (close close_transport c).1.state ≡ finished
  unfolding close
  close-state c = close_given-state (record c { state = finished }) c.transport

  pub finished-is_alive : (c : Connection T) → c.state ≡ finished → is_alive c ≡ false
  unfolding is_alive
  finished-is_alive c h = rw h (go c.transport)
    where
      go : (o : Option T) → (has_transport o && false) ≡ false
      go none = refl
      go (some t) = refl

  module _ {B : Type 0} (write_transport : B → T → T × Option Errno) where
    -- A call of `send` ended well, or the connection is over.
    abbrev pub EndsWell : Result (Unit {0}) × Connection T → Type 0
    EndsWell (ok _, c) = Unit
    EndsWell (err e, c) = is_alive c ≡ false

    raise_after-EndsWell :
        (e : Errno) (out : Result (Unit {0}) × Connection T)
        → out.1.state ≡ finished
        → EndsWell (raise_after close_transport write_transport e out)
    raise_after-EndsWell e (ok _, c) h = finished-is_alive c h
    raise_after-EndsWell e (err f, c) h = finished-is_alive c h

    write_given-EndsWell :
        (buffer : B) (c : Connection T) (t : Option T)
        → EndsWell (write_given close_transport write_transport buffer c t)
    write_given-EndsWell buffer c none = tt
    write_given-EndsWell buffer c (some t) = go (write_transport buffer t)
      where
        go : (out : T × Option Errno) → EndsWell (after_write close_transport write_transport c out)
        go (t, none) = tt
        go (t, some e) = raise_after-EndsWell e _ (close-state (record c { transport = some t }))

    -- Whatever the transport does: a connection that was closed, also one whose closing raised, is
    -- neither alive nor established, and to send anything over it returns and changes nothing; and
    -- if a call of `send` raises, the connection is not alive afterwards.
    pub send_lem :
        (buffer : B) (c : Connection T)
        → (is_alive (close close_transport c).1 ≡ false)
          × (is_established (close close_transport c).1 ≡ false)
          × (send close_transport write_transport buffer (close close_transport c).1
              ≡ (ok tt, (close close_transport c).1))
          × EndsWell (send close_transport write_transport buffer c)
    unfolding send is_established
    send_lem buffer c =
        let over = finished-is_alive (close close_transport c).1 (close-state c) in
        (over, rw (close-state c) refl, rw over refl, ends (is_alive c))
      where
        ends :
            (alive : Bool)
            → EndsWell (
                if alive
                then write_given close_transport write_transport buffer c c.transport
                else (ok tt, c))
        ends true = write_given-EndsWell buffer c c.transport
        ends false = tt
