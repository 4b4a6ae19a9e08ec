-- ===== src/Process/Token.antt =====
-- The management token and its file on Unix (src/process_runtime.rs, `load_or_create_management_token`).
-- The outcome of every call of the file system is an argument. A file that cannot be read as text is none.
use baijimu_digital_employee.Base.{
  ℕ, ◌/◌, ◌%◌, Char, String, Option, none, some, List, [], ◌∷◌, Result, ok, err, leb, or_else,
  and_then, when, ◌==◌, if◌then◌else◌,
}
use baijimu_digital_employee.Text.{◌⁺⁺◌, trim, byte_len}
use baijimu_digital_employee.Process.{char_at}

-- The token's file and the temporary one beside it.
pub record TokenFiles : Type 0 where
  pub token_file : Option String
  pub temporary : Option String

-- The failure of each step, if it fails; a write that fails leaves what is given. `meanwhile` is what
-- another process put in place of the file before it is read back.
pub record TokenIo : Type 0 where
  pub create_dir : Option String
  pub protect_home : Option String
  pub write : Option (String × Option String)
  pub protect_temporary : Option String
  pub rename : Option String
  pub protect_file : Option String
  pub meanwhile : Option String
  pub read_back : Option String

-- A step on the files that can fail.
abbrev pub Step : Type 0 → Type 0
Step A = TokenFiles → Result String A × TokenFiles

abbrev pub continue :
    {A B : Type 0} → (A → Step B) → Result String A × TokenFiles → Result String B × TokenFiles
continue f (ok a, files) = f a files
continue f (err e, files) = (err e, files)

infixl 10 ◌>>=◌
abbrev pub ◌>>=◌ : {A B : Type 0} → Step A → (A → Step B) → Step B
(s >>= f) files = continue f (s files)

abbrev pub pure : {A : Type 0} → A → Step A
pure a files = (ok a, files)

abbrev pub unless_failed : Option String → (TokenFiles → TokenFiles) → Step (Unit {0})
unless_failed none change files = (ok tt, change files)
unless_failed (some e) change files = (err e, files)

abbrev pub hex_digit : ℕ → Char
hex_digit n = char_at "0123456789abcdef" n

-- `format!("{byte:02x}")` of every byte
unfoldable pub hex : List ℕ → String
hex [] = ""
hex (b ∷ bs) = String.◌∷◌ (hex_digit (b / 16)) (String.◌∷◌ (hex_digit (b % 16)) (hex bs))

abbrev pub written : TokenIo → String → Step (Unit {0})
written io text files = elim io.write [
  | none ↦ (ok tt, record files { temporary = some text })
  | some (e, left) ↦ (err e, record files { temporary = left })
]

abbrev pub published : TokenFiles → TokenFiles
published files = record { token_file = files.temporary; temporary = none }

abbrev pub replaced : Option String → TokenFiles → TokenFiles
replaced text files = record files { token_file = or_else text files.token_file }

abbrev pub text_of : Option String → Option String → Result String String
text_of (some e) file = err e
text_of none (some text) = ok text
text_of none none = err "stream did not contain valid UTF-8"

-- `fs::read_to_string(&path)?` after the rename
abbrev pub read_back : TokenIo → Step String
read_back io files = (text_of io.read_back files.token_file, files)

abbrev pub checked : String → String → Step String
checked token persisted files =
    if trim persisted == token
    then (ok token, files)
    else (err "management token read-back did not match the generated value", files)

-- The steps that put a new token in its file.
unfoldable pub create_token : TokenIo → String → Step String
unfolding trim
create_token io token = do
  _ ← written io (token ⁺⁺ "\n")
  _ ← unless_failed io.protect_temporary (λ files. files)
  _ ← unless_failed io.rename published
  _ ← unless_failed io.protect_file (λ files. files)
  _ ← unless_failed none (replaced io.meanwhile)
  persisted ← read_back io
  checked token persisted

abbrev pub usable : Option String → Option String
usable text = and_then text (λ t. when (leb 32 (byte_len (trim t))) (trim t))

abbrev pub stored_or : Option String → Step String → Step String
stored_or (some token) create files = (ok token, files)
stored_or none create files = create files

abbrev pub load_or_create : TokenIo → List ℕ → Step String
load_or_create io random files =
    stored_or (usable files.token_file) (create_token io (hex random)) files

-- `load_or_create_management_token` with the random bytes.
unfoldable pub load_or_create_management_token : TokenIo → List ℕ → Step String
unfolding create_token hex byte_len
load_or_create_management_token io random = do
  _ ← unless_failed io.create_dir (λ files. files)
  _ ← unless_failed io.protect_home (λ files. files)
  load_or_create io random
