-- ===== src/Auth/Text.antt =====
-- Python's operations on text that kytos/core/auth.py uses.
use Prim.Native.Char.{Char, code}
use Prim.Native.String.append
use Prim.Native.String.{[] as empty, ◌∷◌ as cons, ◌++◌ as concat}
use kytos.Prelude.{
  ℕ, ◌≡◌, refl, String, Bool, true, false, ◌&&◌, ◌||◌, Option, none, some, List, [], ◌∷◌, ◌==◌, leb,
  if◌then◌else◌, arith,
}

-- The white space among the 256 characters that a header can have.
abbrev is_space : Char → Bool
is_space c =
    (leb 9 (code c) && leb (code c) 13)
    || (leb 28 (code c) && leb (code c) 32)
    || (code c == 133)
    || (code c == 160)

abbrev end_word : String → List String → List String
end_word empty rest = rest
end_word (cons c word) rest = cons c word ∷ rest

-- The word at the front, which may be empty, and the words behind it.
abbrev first_word : String → String × List String
first_word empty = (empty, [])
first_word (cons c text) =
    let (word, rest) = first_word text in
    if is_space c then (empty, end_word word rest) else (cons c word, rest)

-- text.split()
abbrev pub words : String → List String
words text = end_word (first_word text).0 (first_word text).1

abbrev colon : ℕ
colon = 58

-- The first and the last part of text.partition(":")
abbrev pub partition_colon : String → String × String
partition_colon empty = (empty, empty)
partition_colon (cons c text) =
    let (front, back) = partition_colon text in
    if code c == colon then (empty, text) else (cons c front, back)

abbrev pub has_colon : String → Bool
has_colon empty = false
has_colon (cons c text) = if code c == colon then true else has_colon text

if_false : (p q : Bool) → (if p then true else q) ≡ false → (p ≡ false) × (q ≡ false)
if_false p q h = ground arith

-- What is behind `part`, if the text begins with it.
abbrev behind : String → String → Option String
behind empty text = some text
behind (cons c part) empty = none
behind (cons c part) (cons d text) = if code c == code d then behind part text else none

abbrev or_else : Option String → Option String → Option String
or_else none later = later
or_else (some text) later = some text

abbrev after_first : String → String → Option String
after_first part empty = behind part empty
after_first part (cons c text) = or_else (behind part (cons c text)) (after_first part text)

abbrev unless_here : Option String → Char → String → String
unless_here none c later = cons c later
unless_here (some text) c later = empty

abbrev until_next : String → String → String
until_next part empty = empty
until_next part (cons c text) = unless_here (behind part (cons c text)) c (until_next part text)

abbrev cut_at_next : String → Option String → Option String
cut_at_next part none = none
cut_at_next part (some text) = some (until_next part text)

-- text.split(part)[1]; `none` is the IndexError.
abbrev pub between : String → String → Option String
between part text = cut_at_next part (after_first part text)

-- f"{username}:{password}"
abbrev pub pair_text : String → String → String
pair_text username password = concat username (concat ":" password)

pub partition_colon-pair_text :
    (username password : String)
    → has_colon username ≡ false
    → partition_colon (pair_text username password) ≡ (username, password)
partition_colon-pair_text empty password h = rw append.nil (rw append.cons (rw append.nil refl))
partition_colon-pair_text (cons c username) password h =
    let (other, rest) = if_false (code c == colon) (has_colon username) h in
    rw append.cons (rw other (rw (partition_colon-pair_text username password rest) refl))
