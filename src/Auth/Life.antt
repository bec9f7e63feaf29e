-- ===== src/Auth/Life.antt =====
-- A user that is created, logs in and is deleted.
use kytos.Prelude.{
  ◌≡◌, refl, ◌∙◌, String, Bool, true, false, not, ◌&&◌, none, some, [], ◌∷◌, str_eq, eq_iff,
  if◌then◌else◌,
}
use kytos.Errors.{Result, ok, err, http_exception}
use kytos.Dict.{Dict, lookup}
use kytos.Auth.Text.{words, pair_text, has_colon, partition_colon-pair_text}
use kytos.Auth.Password.{any, validate_password_lem}
use kytos.Auth.{
  UserDoc, Users, updated, Crypto, Reply, token, answer, user_doc, after_insert, create_user,
  delete_user, authenticate_user, check_user,
}

-- What the collection of users promises, with its unique index on the names.
pub record Lawful {D H : Type 0} (users : Users D H) : Type 0 where
  pub insert_new :
      (doc : UserDoc H) (d : D)
      → users.get_user doc.username d ≡ none
      → (d' : D) × (users.insert_one doc d ≡ (true, d'))
        × ((name : String)
            → users.get_user name d'
              ≡ (if str_eq doc.username name then some doc else users.get_user name d))
  pub insert_known :
      (doc old : UserDoc H) (d : D)
      → users.get_user doc.username d ≡ some old
      → users.insert_one doc d ≡ (false, d)
  pub update_known :
      (change : UserDoc H → UserDoc H) (doc : UserDoc H) (d : D)
      → users.get_user doc.username d ≡ some doc
      → (change doc).username ≡ doc.username
      → (d' : D) × (users.find_one_and_update doc.username change d ≡ (updated (change doc), d'))
        × ((name : String)
            → users.get_user name d'
              ≡ (if str_eq doc.username name then some (change doc) else users.get_user name d))

str_eq_refl : (s : String) → str_eq s s ≡ true
str_eq_refl s = (eq_iff s s).1 refl

same_name : {A : Type 0} (s : String) (a b : A) → (if str_eq s s then a else b) ≡ a
same_name s a b = rw (str_eq_refl s) refl

module _ {H K D : Type 0} (crypto : Crypto H K) (users : Users D H) (laws : Lawful users) where
  abbrev new_user : String → String → String → H → UserDoc H
  new_user username email password salted = record {
    username = username;
    email = email;
    hash = salted;
    password = crypto.hashing password salted;
    is_active = true;
  }

  abbrev pub fits : String → Bool
  fits password =
      any crypto.is_upper password && any crypto.is_lower password && any crypto.is_numeric password

  user_doc_run :
      (username email password : String) (salted : H) (body : Dict String)
      → lookup "username" body ≡ some username
      → lookup "email" body ≡ some email
      → lookup "password" body ≡ some password
      → crypto.valid_fields username email password ≡ true
      → fits password ≡ true
      → user_doc crypto users salted
          (lookup "username" body)
          (lookup "email" body)
          (lookup "password" body)
        ≡ ok (new_user username email password salted)
  unfolding user_doc
  user_doc_run username email password salted body has_name has_email has_password valid good =
      rw has_name (
        rw has_email (
          rw has_password
            (rw valid (rw (validate_password_lem crypto password salted) (rw good refl)))))

  authenticate_run :
      (username given scheme word auth : String) (d : D)
      → has_colon username ≡ false
      → words auth ≡ scheme ∷ word ∷ []
      → crypto.b64decode word ≡ some (pair_text username given)
      → authenticate_user crypto users (some auth) d
        ≡ check_user crypto users username given (users.get_user username d)
  unfolding authenticate_user
  authenticate_run username given scheme word auth d plain splits decodes =
      rw splits (rw decodes (rw (partition_colon-pair_text username given plain) refl))

  create_run :
      (username email password : String) (salted : H) (body : Dict String) (d d' : D) (b : Bool)
      → user_doc crypto users salted
          (lookup "username" body)
          (lookup "email" body)
          (lookup "password" body)
        ≡ ok (new_user username email password salted)
      → users.insert_one (new_user username email password salted) d ≡ (b, d')
      → create_user crypto users salted body d ≡ after_insert crypto users (b, d')
  unfolding create_user
  create_run username email password salted body d d' b reads inserts = rw reads (rw inserts refl)

  delete_run :
      (username : String) (doc : UserDoc H) (d d' : D)
      → users.find_one_and_update username (λ u. record u { is_active = false }) d
        ≡ (updated doc, d')
      → delete_user crypto users username d ≡ (ok (answer 200), d')
  unfolding delete_user
  delete_run username doc d d' h = rw h refl

  abbrev pub login : String → String → H → String → Result (Reply K)
  login username password salted given =
      if str_eq (crypto.hashing password salted) (crypto.hashing given salted)
      then ok (token (crypto.generate_token username))
      else err (http_exception 401)

  check_run :
      (username email password given : String) (salted : H)
      → check_user crypto users username given (some (new_user username email password salted))
        ≡ login username password salted given
  check_run username email password given salted =
      go (str_eq (crypto.hashing password salted) (crypto.hashing given salted))
    where
      go :
          (b : Bool)
          → (if not b
              then err (http_exception 401)
              else ok (token (crypto.generate_token username)))
            ≡ (if b then ok (token (crypto.generate_token username)) else err (http_exception 401))
      go true = refl
      go false = refl

  -- If a body names a user that there is not, with fields that are valid, a name without a colon and a
  -- password with an upper case, a lower case and a numeric character, then with credentials for
  -- that name: to log in is refused with 404; the user is created, and to create it again is refused
  -- with 409; to log in gives a token exactly if the given password has the same hash, and else is
  -- refused with 401; and when the user is deleted, to log in is refused with 401.
  pub authenticate_user-create_user :
      (username email password given scheme word auth : String) (salted resalted : H)
      (body : Dict String) (d : D)
      → lookup "username" body ≡ some username
      → lookup "email" body ≡ some email
      → lookup "password" body ≡ some password
      → crypto.valid_fields username email password ≡ true
      → fits password ≡ true
      → users.get_user username d ≡ none
      → has_colon username ≡ false
      → words auth ≡ scheme ∷ word ∷ []
      → crypto.b64decode word ≡ some (pair_text username given)
      → (d' d'' : D) × (authenticate_user crypto users (some auth) d ≡ err (http_exception 404))
        × (create_user crypto users salted body d ≡ (ok (answer 201), d'))
        × (create_user crypto users resalted body d' ≡ (err (http_exception 409), d'))
        × (authenticate_user crypto users (some auth) d' ≡ login username password salted given)
        × (delete_user crypto users username d' ≡ (ok (answer 200), d''))
        × (authenticate_user crypto users (some auth) d'' ≡ err (http_exception 401))
  authenticate_user-create_user username email password given scheme word auth salted resalted body
        d n e p valid good unknown plain splits decodes =
      let doc = new_user username email password salted in
      let (d', inserts, found) = laws.insert_new doc d unknown in
      let here = found username ∙ same_name username (some doc) (users.get_user username d) in
      let (d'', updates, later) =
        laws.update_known (λ u. record u { is_active = false }) doc d' here refl in
      (
        d',
        d'',
        authenticate_run username given scheme word auth d plain splits decodes ∙ rw unknown refl,
        create_run username email password salted body d d' true
            (user_doc_run username email password salted body n e p valid good) inserts,
        create_run username email password resalted body d' d' false
            (user_doc_run username email password resalted body n e p valid good)
            (laws.insert_known (new_user username email password resalted) doc d' here),
        authenticate_run username given scheme word auth d' plain splits decodes
            ∙ rw here (check_run username email password given salted),
        delete_run username _ d' d'' updates,
        authenticate_run username given scheme word auth d'' plain splits decodes
            ∙ rw (later username) (rw (str_eq_refl username) refl),
      )
