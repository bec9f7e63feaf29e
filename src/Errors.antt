-- ===== src/Errors.antt =====
-- kytos/core/exceptions.py, and the exceptions of Python that the code raises or catches. What an
-- exception carries is kept where a caller can act on it; its message is not.
use kytos.Prelude.{ℕ, String, List, Bool, true, false}
use kytos.TagRanges.Meaning.{Range}

-- The tags that an exception or a reply names: ranges, or one special tag.
pub data Named : Type 0 where
  ranges : List Range → Named
  special : String → Named

-- What errno of an OSError the code tells apart.
pub data Errno : Type 0 where
  enotconn ebadf : Errno
  other_errno : ℕ → Errno

pub data Error : Type 0 where
  invalid_tag_ranges : Error
  tagtype_not_supported : String → Error
  set_tag_range_error : Error
  tags_not_available : Named → String → Error
  tags_not_in_tag_ranges : Named → String → Error
  no_tag_available : Error
  link_creation_error : Error
  core_exception : Error
  key_error : String → Error
  value_error : Error
  index_error : Error
  type_error : Error
  zero_division_error : Error
  runtime_error : Error
  attribute_error : Error
  os_error : Errno → Error
  pack_exception : Error
  napp_setup_exception : Error
  no_such_action_error : Error
  http_exception : ℕ → Error

-- What a call leaves: an exception on its way up, or a value.
pub data Result {ℓ} (Value : Type ℓ) : Type ℓ where
  err : Error → Result Value
  ok : Value → Result Value

-- The rest of a body runs only if no exception is on its way.
module _ {ℓ κ} {Found : Type ℓ} {Value : Type κ} where
  infixl 5 ◌>>=◌
  abbrev pub ◌>>=◌ : (call : Result Found) (rest : Found → Result Value) → Result Value
  err exception >>= rest = err exception
  ok found >>= rest = rest found

-- `if bad: raise exception`
abbrev pub raise_if : Bool → Error → Result (Unit {0})
raise_if false exception = ok tt
raise_if true exception = err exception

-- A statement and what comes after it.
infixl 5 ◌>>◌
abbrev pub ◌>>◌ {κ} :
    {Value : Type κ} (statement : Result (Unit {0})) (rest : Result Value) → Result Value
statement >> rest = statement >>= λ nothing. rest
