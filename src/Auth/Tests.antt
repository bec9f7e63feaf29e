-- ===== src/Auth/Tests.antt =====
-- A small collection of users, where base64 is the text itself and the hash the password.
use Prim.Native.Char.{Char, code}
use kytos.Prelude.{
  ℕ, ◌≡◌, refl, String, Bool, true, false, ◌&&◌, Option, none, some, [], ◌∷◌, leb, str_eq,
}
use kytos.Errors.{ok, err, http_exception}
use kytos.Dict.{Dict, lookup, insert, lookup-insert}
use kytos.Auth.{
  UserDoc, Users, Updated, updated, no_user, Crypto, answer, create_user, delete_user,
  authenticate_user, authenticated_call,
}
use kytos.Auth.Life.{Lawful, login, authenticate_user-create_user}

abbrev Store : Type 0
Store = Dict (UserDoc ℕ)

abbrev insert_if : Option (UserDoc ℕ) → UserDoc ℕ → Store → Bool × Store
unfolding insert
insert_if none doc d = (true, insert doc.username doc d)
insert_if (some old) doc d = (false, d)

abbrev update_if : String → Option (UserDoc ℕ) → (UserDoc ℕ → UserDoc ℕ) → Store → Updated ℕ × Store
unfolding insert
update_if username none change d = (no_user, d)
update_if username (some doc) change d = (updated (change doc), insert username (change doc) d)

abbrev users : Users Store ℕ
unfolding insert_if update_if lookup
users = record {
  get_user = λ username d. lookup username d;
  insert_one = λ doc d. insert_if (lookup doc.username d) doc d;
  find_one_and_update = λ username change d. update_if username (lookup username d) change d;
}

abbrev users-Lawful : Lawful users
unfolding users insert_if update_if
users-Lawful = record {
  insert_new = λ doc d h.
      (insert doc.username doc d, rw h refl, λ name. lookup-insert doc.username name doc d);
  insert_known = λ doc old d h. rw h refl;
  update_known = λ change doc d h same. (
    insert doc.username (change doc) d,
    rw h refl,
    λ name. lookup-insert doc.username name (change doc) d,
  );
}

abbrev between_codes : ℕ → ℕ → Char → Bool
between_codes lo hi c = leb lo (code c) && leb (code c) hi

abbrev crypto : Crypto ℕ String
crypto = record {
  hashing = λ password salted. password;
  b64decode = λ word. some word;
  generate_token = λ username. username;
  decode_token = λ word. str_eq word "ana";
  is_upper = between_codes 65 90;
  is_lower = between_codes 97 122;
  is_numeric = between_codes 48 57;
  valid_fields = λ username email password. true;
  valid_update = λ username email password. true;
}

abbrev ana : Dict String
ana = ("username", "ana") ∷ ("email", "ana@kytos.io") ∷ ("password", "Secret12") ∷ []

abbrev call : Option String → ℕ
unfolding authenticated_call
call header = authenticated_call crypto header (λ u. 200) 401

authenticated_call_run :
    (call (some "Bearer ana") ≡ 200)
    × (call (some "Bearer bob") ≡ 401)
    × (call (some "Basic ana") ≡ 401)
    × (call none ≡ 401)
unfolding call
authenticated_call_run = (refl, refl, refl, refl)

authenticate_user-create_user_example :
    (d' d'' : Store) × (authenticate_user crypto users (some "Basic ana:Secret12") []
      ≡ err (http_exception 404))
    × (create_user crypto users 1 ana [] ≡ (ok (answer 201), d'))
    × (create_user crypto users 2 ana d' ≡ (err (http_exception 409), d'))
    × (authenticate_user crypto users (some "Basic ana:Secret12") d'
        ≡ login crypto users users-Lawful "ana" "Secret12" 1 "Secret12")
    × (delete_user crypto users "ana" d' ≡ (ok (answer 200), d''))
    × (authenticate_user crypto users (some "Basic ana:Secret12") d'' ≡ err (http_exception 401))
unfolding lookup users
authenticate_user-create_user_example =
    authenticate_user-create_user crypto users users-Lawful "ana" "ana@kytos.io" "Secret12"
      "Secret12" "Basic" "ana:Secret12" "Basic ana:Secret12" 1 2 ana [] refl refl refl refl refl
      refl refl refl refl
