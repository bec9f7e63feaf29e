-- ===== src/Interface/State.antt =====
-- The tag state of `Interface` (kytos/core/interface.py), and methods as actions on it: a method
-- returns or raises, and what it has changed by then stays. The locks are not modelled: an action
-- is what runs under `_tag_lock`.
use kytos.Prelude.{String, Bool, true, false, Option, none, some, List}
use kytos.Errors.{Error, Result, ok, err, key_error, tagtype_not_supported}
use kytos.Dict.{Dict}
use kytos.TagRanges.Meaning.{Range}

pub record TagPool : Type 0 where
  pub id : String
  pub available_tags : Dict (List Range)
  pub tag_ranges : Dict (List Range)
  pub special_available_tags : Dict (List String)
  pub special_tags : Dict (List String)

-- The interface, and the ids of the interfaces whose `kytos/core.interface_tags` events were put
-- into `controller.buffers.app`, the latest last.
pub record State : Type 0 where
  pub pool : TagPool
  pub notified : List String

abbrev pub Action : Type 0 → Type 0
Action A = State → Result A × State

module _ {A : Type 0} where
  abbrev pub pure : A → Action A
  pure a s = (ok a, s)

  abbrev pub throw : Error → Action A
  throw e s = (err e, s)

  abbrev pub lift : Result A → Action A
  lift r s = (r, s)

abbrev pub get_pool : Action TagPool
get_pool s = (ok s.pool, s)

abbrev pub set_pool : TagPool → Action Unit
set_pool p s = (ok tt, record s { pool = p })

-- A method goes on in the state that its statement left, unless that raised.
module _ {Found Value : Type 0} where
  abbrev pub and_then : Result Found → (Found → Action Value) → Action Value
  and_then (err exception) rest now = (err exception, now)
  and_then (ok found) rest now = rest found now

  infixl 5 ◌>>=◌
  abbrev pub ◌>>=◌ : (statement : Action Found) (rest : Found → Action Value) → Action Value
  (statement >>= rest) before = let (out, after) = statement before in and_then out rest after

  infixl 5 ◌>>◌
  abbrev pub ◌>>◌ : (statement : Action Found) (rest : Action Value) → Action Value
  (statement >> rest) before = let (out, after) = statement before in and_then out (λ _. rest) after

-- d[k]
abbrev pub found {ℓ} : {V : Type ℓ} → String → Option V → Result V
found k none = err (key_error k)
found k (some v) = ok v

abbrev pub when : Bool → Action Unit → Action Unit
when true m = m
when false m = pure tt

-- except KeyError as err: raise KytosTagtypeNotSupported
abbrev pub translate : Error → Error
translate (key_error k) = tagtype_not_supported k
translate e = e

abbrev pub unsupported {ℓ} : {A : Type ℓ} → Result A → Result A
unsupported (ok a) = ok a
unsupported (err e) = err (translate e)

abbrev pub not_supported : {A : Type 0} → Action A → Action A
not_supported m s = let (r, s') = m s in (unsupported r, s')
