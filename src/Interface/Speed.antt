-- ===== src/Interface/Speed.antt =====
-- kytos/core/interface.py: the speed of an interface, and `update_link`. Which bits of a number stand
-- for which feature is of python-openflow, a parameter. Speeds are in bytes per second.
use Prim.Native.Nat.{◌*◌, ◌/◌}
use kytos.Prelude.{
  ℕ, ◌≡◌, refl, Bool, true, false, not, ◌&&◌, ◌||◌, Option, none, some, ◌==◌, if◌then◌else◌,
}

-- `fts & mask`, for the masks of version 0x01, where those of one speed in half and full duplex are
-- one, and of version 0x04; and the number of the local port in each.
pub record Features (F : Type 0) : Type 0 where
  pub has_10gb_fd : F → Bool
  pub has_1gb : F → Bool
  pub has_100mb : F → Bool
  pub has_10mb : F → Bool
  pub has_1tb_fd : F → Bool
  pub has_100gb_fd : F → Bool
  pub has_40gb_fd : F → Bool
  pub local_port_01 : ℕ
  pub local_port_04 : ℕ

-- `is_v0x04`: the switch is connected with version 0x04.
pub record SpeedState (F : Type 0) : Type 0 where
  pub port_number : ℕ
  pub features : Option F
  pub custom_speed : Option ℕ
  pub is_v0x04 : Bool

abbrev pub giga : ℕ
giga = 1000000000

module _ {F : Type 0} (bits : Features F) where
  abbrev pub speed_01 : Option F → Option ℕ
  speed_01 none = none
  speed_01 (some fts) =
      if bits.has_10gb_fd fts
      then some (10 * giga / 8)
      else if bits.has_1gb fts
      then some (giga / 8)
      else if bits.has_100mb fts
      then some (100 * 1000000 / 8)
      else if bits.has_10mb fts
      then some (10 * 1000000 / 8)
      else none

  abbrev pub speed_04 : Option F → Option ℕ
  speed_04 none = none
  speed_04 (some fts) =
      if bits.has_1tb_fd fts
      then some (1000 * giga / 8)
      else if bits.has_100gb_fd fts
      then some (100 * giga / 8)
      else if bits.has_40gb_fd fts
      then some (40 * giga / 8)
      else none

  abbrev pub or_04 : Option ℕ → Bool → Option F → Option ℕ
  or_04 (some found) is_v0x04 fts = some found
  or_04 none is_v0x04 fts = if is_v0x04 then speed_04 fts else none

  unfoldable pub get_of_features_speed : SpeedState F → Option ℕ
  get_of_features_speed p = or_04 (speed_01 p.features) p.is_v0x04 p.features

  abbrev pub local_speed : SpeedState F → Option ℕ
  local_speed p =
      if p.is_v0x04 && (p.port_number == bits.local_port_04)
      then some 0
      else if not p.is_v0x04 && (p.port_number == bits.local_port_01)
      then some 0
      else none

  abbrev pub or_custom : Option ℕ → Option ℕ → Option ℕ → Option ℕ
  or_custom (some found) custom other = some found
  or_custom none (some custom) other = some custom
  or_custom none none other = other

  unfoldable pub speed : SpeedState F → Option ℕ
  unfolding get_of_features_speed
  speed p = or_custom (get_of_features_speed p) p.custom_speed (local_speed p)

  unfoldable pub set_custom_speed : Option ℕ → SpeedState F → SpeedState F
  set_custom_speed bytes_per_second p = record p { custom_speed = bytes_per_second }

  unfoldable pub get_custom_speed : SpeedState F → Option ℕ
  get_custom_speed p = p.custom_speed

  same_features :
      (custom : Option ℕ) (p : SpeedState F)
      → get_of_features_speed (set_custom_speed custom p) ≡ get_of_features_speed p
  unfolding get_of_features_speed set_custom_speed
  same_features custom p = refl

  -- If the features of the port give a speed, a custom speed does not change it; if they give none,
  -- the custom speed is the speed.
  speed-set_custom_speed :
      (fast custom : ℕ) (p q : SpeedState F)
      → get_of_features_speed p ≡ some fast
      → get_of_features_speed q ≡ none
      → (speed (set_custom_speed (some custom) p) ≡ speed p)
        × (speed (set_custom_speed (some custom) q) ≡ some custom)
  unfolding speed
  speed-set_custom_speed fast custom p q known unknown = (
    rw (same_features (some custom) p) (rw known refl),
    rw (same_features (some custom) q) (rw unknown (unfold set_custom_speed in refl)),
  )

-- `update_link`. An interface and a link are objects, which numbers stand for; `links` says which link
-- an interface has. Interfaces are compared by their ids, and so are links: two numbers that the
-- tests take for the same may differ.
module _ (same_interface same_link : ℕ → ℕ → Bool) where
  abbrev set_link : ℕ → ℕ → (ℕ → Option ℕ) → ℕ → Option ℕ
  set_link i l links j = if i == j then some l else links j

  abbrev differs : Option ℕ → ℕ → Bool
  differs none l = true
  differs (some old) l = not (same_link old l)

  abbrev put_link : ℕ → ℕ → (ℕ → Option ℕ) → ℕ → Option ℕ
  put_link i l links = if differs (links i) l then set_link i l links else links

  -- `a` and `b` are the endpoints of the link.
  unfoldable pub update_link : ℕ → ℕ → ℕ → ℕ → (ℕ → Option ℕ) → Bool × (ℕ → Option ℕ)
  update_link self l a b links =
      if same_interface a self || same_interface b self
      then (true, put_link (if same_interface a self then b else a) l (put_link self l links))
      else (false, links)
