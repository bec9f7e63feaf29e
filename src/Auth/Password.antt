-- ===== src/Auth/Password.antt =====
-- Which passwords are valid.
use Prim.Native.Char.{Char}
use Prim.Native.String.{[] as empty, ◌∷◌ as cons}
use kytos.Prelude.{◌≡◌, refl, String, Bool, false, ◌&&◌, ◌||◌, arith, if◌then◌else◌}
use kytos.Errors.{ok, err, value_error}
use kytos.Auth.{Crypto, seen_all, validate_password}

abbrev pub any : (Char → Bool) → String → Bool
any test empty = false
any test (cons c text) = test c || any test text

module _ {H K : Type 0} (crypto : Crypto H K) where
  seen_all-any :
      (text : String) (u l n : Bool)
      → (n && u && l) ≡ false
      → seen_all crypto text u l n ≡ (
          (u || any crypto.is_upper text)
          && (l || any crypto.is_lower text)
          && (n || any crypto.is_numeric text))
  unfolding seen_all
  seen_all-any empty u l n h = ground (arith, h)
  seen_all-any (cons c text) u l n h = ground (
    arith,
    seen_all-any text (u || crypto.is_upper c) (l || crypto.is_lower c) (n || crypto.is_numeric c),
  )

  -- A password is hashed exactly if it has an upper case character, a lower case character and a
  -- numeric one; else it is a ValueError.
  pub validate_password_lem :
      (password : String) (hash : H)
      → validate_password crypto password hash ≡ (
          if any crypto.is_upper password
            && any crypto.is_lower password
            && any crypto.is_numeric password
          then ok (crypto.hashing password hash)
          else err value_error)
  unfolding validate_password
  validate_password_lem password hash = rw (seen_all-any password false false false refl) refl
