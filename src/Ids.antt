-- ===== src/Ids.antt =====
-- kytos/core/id.py: the identifiers of interfaces and links, and their order.
pub mod TextOrder
pub mod Order
use Prim.Native.Nat.{Ordering}
use Prim.Native.String.{compare, ◌++◌}
use kytos.Prelude.{ℕ, String, Bool, true, false, ltb, if◌then◌else◌}

pub record InterfaceId : Type 0 where
  pub switch : String
  pub port : ℕ

-- Tuples are compared at the first place where they differ.
abbrev pub then_port : Ordering → ℕ → ℕ → Bool
then_port Ordering.lt p q = true
then_port Ordering.eq p q = ltb p q
then_port Ordering.gt p q = false

-- __lt__
unfoldable pub less : InterfaceId → InterfaceId → Bool
less self other = then_port (compare self.switch other.switch) self.port other.port

-- sorted((a, b))
unfoldable pub sorted_pair : InterfaceId → InterfaceId → InterfaceId × InterfaceId
unfolding less
sorted_pair a b = if less b a then (b, a) else (a, b)

pub record LinkId : Type 0 where
  pub digest : String
  pub interfaces : InterfaceId × InterfaceId

-- `text` is `str` of an identifier, with the port in decimals, and `sha256` the hex digest of the
-- library.
module _ (sha256 : String → String) (text : InterfaceId → String) where
  abbrev pub from_pair : InterfaceId × InterfaceId → LinkId
  from_pair (first, second) = record {
    digest = sha256 (text first ++ ":" ++ text second);
    interfaces = (first, second);
  }

  unfoldable pub link_id : InterfaceId → InterfaceId → LinkId
  unfolding sorted_pair
  link_id interface_a interface_b = from_pair (sorted_pair interface_a interface_b)
