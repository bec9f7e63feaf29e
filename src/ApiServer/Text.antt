-- ===== src/ApiServer/Text.antt =====
-- Python's operations on text that kytos/core/api_server.py uses.
use Prim.Native.Char.{Char, code}
use Prim.Native.String.append
use Prim.Native.String.{[] as empty, ◌∷◌ as cons, ◌++◌ as concat}
use kytos.Prelude.{
  ℕ, ◌≡◌, refl, ap, sym, ◌∙◌, String, Bool, true, false, ◌&&◌, ◌||◌, ◌==◌, arith, if◌then◌else◌,
}

-- text.startswith(prefix)
abbrev pub starts_with : String → String → Bool
starts_with empty text = true
starts_with (cons c prefix) empty = false
starts_with (cons c prefix) (cons d text) = (code c == code d) && starts_with prefix text

-- part in text
abbrev pub contains : String → String → Bool
contains part empty = starts_with part empty
contains part (cons c text) = starts_with part (cons c text) || contains part text

abbrev last_is_slash : Char → String → Bool → Bool
last_is_slash c empty later = code c == 47
last_is_slash c (cons d text) later = later

-- text.endswith("/")
abbrev pub ends_with_slash : String → Bool
ends_with_slash empty = false
ends_with_slash (cons c text) = last_is_slash c text (ends_with_slash text)

abbrev is_slash : Char → String → Bool
is_slash c empty = code c == 47
is_slash c (cons d text) = false

-- text == "/"
abbrev pub is_root : String → Bool
is_root empty = false
is_root (cons c text) = is_slash c text

abbrev keep_first : Char → String → String → String
keep_first c empty later = empty
keep_first c (cons d text) later = cons c later

-- text[:-1]
abbrev pub without_last : String → String
without_last empty = empty
without_last (cons c text) = keep_first c text (without_last text)

-- text[1:] if text.startswith("/") else text
abbrev pub without_first_slash : String → String
without_first_slash empty = empty
without_first_slash (cons c text) = if code c == 47 then text else cons c text

==_refl : (a : ℕ) → (a == a) ≡ true
==_refl a = ground arith

pub starts_with-append : (prefix text : String) → starts_with prefix (concat prefix text) ≡ true
starts_with-append empty text = refl
starts_with-append (cons c prefix) text =
    rw append.cons (rw (==_refl (code c)) (starts_with-append prefix text))

-- A text does not start with itself and one more character.
pub starts_with-without_last :
    (c : Char) (text : String) → starts_with (cons c text) (without_last (cons c text)) ≡ false
starts_with-without_last c empty = refl
starts_with-without_last c (cons d text) = rw (==_refl (code c)) (starts_with-without_last d text)

-- What is at the end of the second part, if there is one, is at the end of both.
without_last-cons :
    (d : Char) (prefix : String) (c : Char) (text : String)
    → without_last (cons d (concat prefix (cons c text)))
      ≡ cons d (without_last (concat prefix (cons c text)))
without_last-cons d empty c text = rw append.nil refl
without_last-cons d (cons e prefix) c text = rw append.cons refl

pub without_last-append :
    (prefix : String) (c : Char) (text : String)
    → without_last (concat prefix (cons c text)) ≡ concat prefix (without_last (cons c text))
without_last-append empty c text = rw append.nil (rw append.nil refl)
without_last-append (cons d prefix) c text =
    ap without_last (append.cons d prefix (cons c text))
    ∙ without_last-cons d prefix c text
    ∙ ap (cons d) (without_last-append prefix c text)
    ∙ sym (append.cons d prefix (without_last (cons c text)))

ends_with_slash-cons :
    (d : Char) (prefix : String) (c : Char) (text : String)
    → ends_with_slash (cons d (concat prefix (cons c text)))
      ≡ ends_with_slash (concat prefix (cons c text))
ends_with_slash-cons d empty c text = rw append.nil refl
ends_with_slash-cons d (cons e prefix) c text = rw append.cons refl

pub ends_with_slash-append :
    (prefix : String) (c : Char) (text : String)
    → ends_with_slash (concat prefix (cons c text)) ≡ ends_with_slash (cons c text)
ends_with_slash-append empty c text = rw append.nil refl
ends_with_slash-append (cons d prefix) c text =
    ap ends_with_slash (append.cons d prefix (cons c text))
    ∙ ends_with_slash-cons d prefix c text
    ∙ ends_with_slash-append prefix c text
