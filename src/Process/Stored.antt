-- ===== src/Process/Stored.antt =====
-- The management token that the connector works with is the one in its file.
use mathlib.Core.Option.{some-injective}
use baijimu_digital_employee.Base.{
  ◌≡◌, refl, sym, ap, ◌∙◌, subst, inl, inr, ℕ, ◌+◌, ◌≤◌, ◌/◌, ◌%◌, code, String, not, Option, none,
  some, List, [], ◌∷◌, length, Result, ok, err, ltb, leb, leb→le, arith, ok-injective, Option-cases,
  ◌==◌, eq_iff, Bool-cases,
}
use baijimu_digital_employee.Text.{◌⁺⁺◌, trim, byte_len, utf8_len}
use baijimu_digital_employee.Process.Names.{char_at-IsFree}
use baijimu_digital_employee.Process.Token.{
  TokenFiles, TokenIo, Step, continue, ◌>>=◌, unless_failed, hex_digit, hex, written, published,
  replaced, read_back, text_of, checked, create_token, usable, load_or_create,
  load_or_create_management_token,
}

continued :
    {A B : Type 0} (f : A → Step B) (p : Result String A × TokenFiles) (b : B) (after : TokenFiles)
    → continue f p ≡ (ok b, after)
    → (a : A) × (mid : TokenFiles) × (f a mid ≡ (ok b, after))
continued f (ok a, mid) b after h = (a, mid, h)
continued f (err e, mid) b after h = let q : err e ≡ ok b = ap (λ r. r.0) h in cc q

step-then :
    {A B : Type 0} (s : Step A) (f : A → Step B) (files : TokenFiles) (b : B) (after : TokenFiles)
    → (s >>= f) files ≡ (ok b, after)
    → (a : A) × (mid : TokenFiles) × (f a mid ≡ (ok b, after))
step-then s f files b after h = continued f (s files) b after h

-- The token is the text of its file without the space around it.
abbrev pub IsStored : String → TokenFiles → Type 0
IsStored token files = (text : String) × (files.token_file ≡ some text) × (trim text ≡ token)

text_of-ok :
    (fault file : Option String) (text : String) → text_of fault file ≡ ok text → file ≡ some text
text_of-ok (some e) file text h = cc
text_of-ok none (some s) text h = ap some (ok-injective s text h)
text_of-ok none none text h = cc

checked-IsStored :
    (token text : String) (files : TokenFiles) (t : String) (after : TokenFiles)
    → files.token_file ≡ some text
    → checked token text files ≡ (ok t, after)
    → (t ≡ token) × IsStored t after
checked-IsStored token text files t after e h = elim (Bool-cases (trim text == token)) [
  | inl p ↦
      let q : (ok token, files) ≡ (ok t, after) = sym (rw p refl) ∙ h in
      let same : token ≡ t = ok-injective token t (ap (λ r. r.0) q) in
      let stays : files ≡ after = ap (λ r. r.1) q in
      (
        sym same,
        (
          text,
          subst (λ (f : TokenFiles). f.token_file ≡ some text) stays e,
          (eq_iff (trim text) token).0 p ∙ same,
        ),
      )
  | inr p ↦
      let r : (err "management token read-back did not match the generated value", files)
          ≡ (ok t, after) =
        sym (rw p refl) ∙ h in
      let q : err "management token read-back did not match the generated value" ≡ ok t =
        ap (λ x. x.0) r in
      cc q
]

read_back-checked :
    (io : TokenIo) (token : String) (r : Result String String) (files : TokenFiles) (t : String)
    (after : TokenFiles)
    → text_of io.read_back files.token_file ≡ r
    → continue (checked token) (r, files) ≡ (ok t, after)
    → (t ≡ token) × IsStored t after
read_back-checked io token (ok text) files t after e h =
    checked-IsStored token text files t after (text_of-ok io.read_back files.token_file text e) h
read_back-checked io token (err why) files t after e h =
    let q : err why ≡ ok t = ap (λ r. r.0) h in cc q

create_token-IsStored :
    (io : TokenIo) (token : String) (files : TokenFiles) (t : String) (after : TokenFiles)
    → create_token io token files ≡ (ok t, after)
    → (t ≡ token) × IsStored t after
unfolding create_token
create_token-IsStored io token files t after h =
    let (u1, f1, h1) = step-then (written io (token ⁺⁺ "\n")) _ files t after h in
    let (u2, f2, h2) = step-then (unless_failed io.protect_temporary (λ f. f)) _ f1 t after h1 in
    let (u3, f3, h3) = step-then (unless_failed io.rename published) _ f2 t after h2 in
    let (u4, f4, h4) = step-then (unless_failed io.protect_file (λ f. f)) _ f3 t after h3 in
    let (u5, f5, h5) =
      step-then (unless_failed none (replaced io.meanwhile)) (λ u. read_back io >>= checked token)
        f4 t after h4 in
    read_back-checked io token _ f5 t after refl h5

utf8_len-hex_digit : (n : ℕ) → utf8_len (hex_digit n) ≡ 1
utf8_len-hex_digit n =
    let small = char_at-IsFree (λ c. not (ltb (code c) 128)) "0123456789abcdef" n refl refl in
    ground arith

byte_len-hex : (l : List ℕ) → byte_len (hex l) ≡ length l + length l
unfolding byte_len hex
byte_len-hex [] = refl
byte_len-hex (b ∷ bs) =
    rw (utf8_len-hex_digit (b / 16), utf8_len-hex_digit (b % 16), byte_len-hex bs) (omega arith)

usable-some :
    (file : Option String) (token : String)
    → usable file ≡ some token
    → (32 ≤ byte_len token) × ((text : String) × (file ≡ some text) × (trim text ≡ token))
usable-some none token h = cc
usable-some (some text) token h = elim (Bool-cases (leb 32 (byte_len (trim text)))) [
  | inl p ↦
      let q : some (trim text) ≡ some token = sym (rw p refl) ∙ h in
      let same = some-injective (trim text) token q in
      (subst (λ s. 32 ≤ byte_len s) same (leb→le 32 (byte_len (trim text)) p), (text, refl, same))
  | inr p ↦ let q : none ≡ some token = sym (rw p refl) ∙ h in cc q
]

load_or_create-IsStored :
    (io : TokenIo) (random : List ℕ) (files : TokenFiles) (token : String) (after : TokenFiles)
    → length random ≡ 32
    → load_or_create io random files ≡ (ok token, after)
    → (32 ≤ byte_len token) × IsStored token after
load_or_create-IsStored io random files token after n h =
    elim (Option-cases (usable files.token_file)) [
      | inl p ↦
          let q : create_token io (hex random) files ≡ (ok token, after) = sym (rw p refl) ∙ h in
          let (same, stored) = create_token-IsStored io (hex random) files token after q in
          let long : 32 ≤ byte_len (hex random) = rw (byte_len-hex random, n) (omega arith) in
          (subst (λ s. 32 ≤ byte_len s) (sym same) long, stored)
      | inr (t, p) ↦
          let q : (ok t, files) ≡ (ok token, after) = sym (rw p refl) ∙ h in
          let same : t ≡ token = ok-injective t token (ap (λ r. r.0) q) in
          let stays : files ≡ after = ap (λ r. r.1) q in
          let (long, found) = usable-some files.token_file t p in
          subst (λ s. (32 ≤ byte_len s) × IsStored s after) same
            (long, subst (IsStored t) stays found)
    ]

-- A management token that is returned is at least 32 bytes long, and the token's file holds it when the
-- steps are done, with white space around it at most, whatever another process put in its place before it
-- was read back. The random bytes are 32.
pub load_or_create_management_token-IsStored :
    (io : TokenIo) (random : List ℕ) (files : TokenFiles) (token : String) (after : TokenFiles)
    → length random ≡ 32
    → load_or_create_management_token io random files ≡ (ok token, after)
    → (32 ≤ byte_len token) × IsStored token after
unfolding load_or_create_management_token
load_or_create_management_token-IsStored io random files token after n h =
    let (u1, f1, h1) = step-then (unless_failed io.create_dir (λ f. f)) _ files token after h in
    let (u2, f2, h2) =
      step-then (unless_failed io.protect_home (λ f. f)) (λ u. load_or_create io random) f1 token
        after h1 in
    load_or_create-IsStored io random f2 token after n h2
