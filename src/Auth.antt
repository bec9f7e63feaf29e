-- ===== src/Auth.antt =====
-- kytos/core/auth.py and kytos/core/user.py. The database is MongoDB, the hash is scrypt, the tokens
-- are of the library jwt, the fields of a user are checked by pydantic, and base64 and the classes
-- of characters are Python's: all of them are parameters.
pub mod Password
pub mod Text
pub mod Life
mod Tests
use Prim.Native.Char.{Char, code}
use Prim.Native.String.{[] as empty, ◌∷◌ as cons}
use kytos.Prelude.{
  ℕ, String, Bool, true, false, not, ◌&&◌, ◌||◌, Option, none, some, List, [], ◌∷◌, str_eq,
  if◌then◌else◌,
}
use kytos.Errors.{Error, Result, ok, err, value_error, http_exception, ◌>>=◌}
use kytos.Dict.{Dict, lookup}
use kytos.Auth.Text.{words, partition_colon, between}

-- A user as it is stored; `H` is the type of the parameters of the hash.
pub record UserDoc (H : Type 0) : Type 0 where
  pub username : String
  pub email : String
  pub hash : H
  pub password : String
  pub is_active : Bool

-- What an update of one document ends in.
pub data Updated (H : Type 0) : Type 0 where
  updated : UserDoc H → Updated H
  no_user duplicate_key : Updated H

-- The collection of users, with its unique index on the names. `insert_one` answers whether the
-- name is new.
pub record Users (D : Type 0) (H : Type 0) : Type 0 where
  pub get_user : String → D → Option (UserDoc H)
  pub insert_one : UserDoc H → D → Bool × D
  pub find_one_and_update : String → (UserDoc H → UserDoc H) → D → Updated H × D

pub record Crypto (H : Type 0) (K : Type 0) : Type 0 where
  pub hashing : String → H → String
  pub b64decode : String → Option String
  pub generate_token : String → K
  pub decode_token : String → Bool
  pub is_upper : Char → Bool
  pub is_lower : Char → Bool
  pub is_numeric : Char → Bool
  pub valid_fields : String → String → String → Bool
  pub valid_update : Option String → Option String → Option String → Bool

pub data Reply (K : Type 0) : Type 0 where
  token : K → Reply K
  answer : ℕ → Reply K

module _ {H K : Type 0} (crypto : Crypto H K) where
  -- The loop of `validate_password`, with what it has seen.
  unfoldable pub seen_all : String → Bool → Bool → Bool → Bool
  seen_all empty upper lower number = false
  seen_all (cons c text) upper lower number =
      let later =
        seen_all text (upper || crypto.is_upper c) (lower || crypto.is_lower c)
          (number || crypto.is_numeric c) in
      if (number || crypto.is_numeric c)
        && (upper || crypto.is_upper c)
        && (lower || crypto.is_lower c)
      then true
      else later

  unfoldable pub validate_password : String → H → Result String
  unfolding seen_all
  validate_password password hash =
      if seen_all password false false false
      then ok (crypto.hashing password hash)
      else err value_error

  module _ {D : Type 0} (users : Users D H) where
    -- The pydantic model; `salted` are the parameters of the hash with a new salt. A ValidationError
    -- is a ValueError.
    abbrev pub hashed_doc : H → String → String → Result String → Result (UserDoc H)
    hashed_doc salted username email (err e) = err e
    hashed_doc salted username email (ok hashed) = ok (record {
      username = username;
      email = email;
      hash = salted;
      password = hashed;
      is_active = true;
    })

    abbrev pub user_doc : H → Option String → Option String → Option String → Result (UserDoc H)
    unfolding validate_password
    user_doc salted (some username) (some email) (some password) =
        if crypto.valid_fields username email password
        then hashed_doc salted username email (validate_password password salted)
        else err value_error
    user_doc salted _ _ _ = err value_error

    abbrev pub after_insert : Bool × D → Result (Reply K) × D
    after_insert (true, d) = (ok (answer 201), d)
    after_insert (false, d) = (err (http_exception 409), d)

    abbrev pub insert_user : Result (UserDoc H) → D → Result (Reply K) × D
    insert_user (err e) d = (err (http_exception 400), d)
    insert_user (ok doc) d = after_insert (users.insert_one doc d)

    -- `_create_user`, with the body that was read, and `UserController.create_user`
    unfoldable pub create_user : H → Dict String → D → Result (Reply K) × D
    unfolding lookup user_doc
    create_user salted body d =
        insert_user
          (user_doc salted (lookup "username" body) (lookup "email" body) (lookup "password" body))
          d

    abbrev after_update : ℕ → Updated H × D → Result (Reply K) × D
    after_update status (updated doc, d) = (ok (answer status), d)
    after_update status (no_user, d) = (err (http_exception 404), d)
    after_update status (duplicate_key, d) = (err (http_exception 409), d)

    -- `_delete_user` and `UserController.delete_user`
    unfoldable pub delete_user : String → D → Result (Reply K) × D
    delete_user username d =
        after_update 200
          (users.find_one_and_update username (λ doc. record doc { is_active = false }) d)

    abbrev set_text : Option String → String → String
    set_text none old = old
    set_text (some new) old = new

    abbrev set_names : Option String → Option String → UserDoc H → UserDoc H
    set_names username email doc = record doc {
      username = set_text username doc.username;
      email = set_text email doc.email;
    }

    -- The fields that are given and valid; a new password comes with a new salt.
    abbrev changes :
        H → Option String → Option String → Option String → Result (UserDoc H → UserDoc H)
    unfolding validate_password
    changes salted username email none = ok (set_names username email)
    changes salted username email (some password) = validate_password password salted >>= λ hashed.
        ok (λ doc. record (set_names username email doc) { hash = salted; password = hashed })

    abbrev with_changes : String → Bool → Result (UserDoc H → UserDoc H) → D → Result (Reply K) × D
    with_changes username true (ok change) d =
        after_update 200 (users.find_one_and_update username change d)
    with_changes username _ _ d = (err (http_exception 400), d)

    -- `_update_user`, with the body that was read, and `UserController.update_user`. The other keys of
    -- the body are not allowed and are passed over.
    unfoldable pub update_user : H → String → Dict String → D → Result (Reply K) × D
    unfolding lookup changes
    update_user salted username body d =
        with_changes username
          (crypto.valid_update (lookup "username" body) (lookup "email" body)
            (lookup "password" body))
          (changes salted (lookup "username" body) (lookup "email" body) (lookup "password" body)) d

    -- scheme, credentials = auth.split()
    abbrev pub credentials : List String → Option String
    credentials (scheme ∷ word ∷ []) = crypto.b64decode word
    credentials _ = none

    abbrev pub check_user : String → String → Option (UserDoc H) → Result (Reply K)
    check_user username password none = err (http_exception 404)
    check_user username password (some user) =
        if not user.is_active
        then err (http_exception 401)
        else if not (str_eq user.password (crypto.hashing password user.hash))
        then err (http_exception 401)
        else ok (token (crypto.generate_token username))

    abbrev pub check_pair : D → String × String → Result (Reply K)
    check_pair d (username, password) = check_user username password (users.get_user username d)

    abbrev pub check_decoded : D → Option String → Result (Reply K)
    check_decoded d none = err (http_exception 400)
    check_decoded d (some decoded) = check_pair d (partition_colon decoded)

    -- `_authenticate_user`, given the header Authorization
    unfoldable pub authenticate_user : Option String → D → Result (Reply K)
    authenticate_user none d = err (http_exception 400)
    authenticate_user (some auth) d = check_decoded d (credentials (words auth))

  abbrev pub with_token : {A : Type 0} → Option String → (Unit {0} → A) → A → A
  with_token none function refused = refused
  with_token (some word) function refused =
      if crypto.decode_token word then function tt else refused

  -- The wrapper of `authenticated`; `refused` is the reply 401.
  unfoldable pub authenticated_call : {A : Type 0} → Option String → (Unit {0} → A) → A → A
  authenticated_call none function refused = refused
  authenticated_call (some content) function refused =
      with_token (between "Bearer " content) function refused
