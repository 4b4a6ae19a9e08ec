-- ===== src/Checkout/Branch.antt =====
-- Which branches fit a request: the branch itself, or one that ends in it behind a slash.
use text.Mathlib.TextLemmas.{nil-append, cons-append}
use baijimu_digital_employee.Base.{
  ◌≡◌, refl, sym, ◌∙◌, ap, subst, ◌⊎◌, inl, inr, Char, String, true, false, not, ◌&&◌, Option, none,
  some, List, [], ◌∷◌, ◌==◌, eq_iff, Bool-cases,
}
use baijimu_digital_employee.Text.{◌⁺⁺◌, is_char}
use baijimu_digital_employee.Text.Search.{starts_with, path_parts, split_first}
use baijimu_digital_employee.Checkout.{last_of, last_segment, is_branch}

-- A text ends in another behind a slash.
abbrev pub EndsIn : String → String → Type 0
EndsIn s q = (p : String) × (c : Char) × (is_char c b'/' ≡ true) × (s ≡ p ⁺⁺ String.◌∷◌ c q)

EndsIn-push : (d : Char) (s q : String) → EndsIn s q → EndsIn (String.◌∷◌ d s) q
EndsIn-push d s q (p, c, h, e) = (String.◌∷◌ d p, c, h, rw cons-append (ap (String.◌∷◌ d) e))

-- A text with the parts that it is split into.
abbrev Ends : String → List String → Type 0
Ends s [] = ⊥
Ends s (l ∷ []) = s ≡ l
Ends s (l ∷ t ∷ ts) = EndsIn s (last_of t ts)

split_first-Ends :
    (c : Char) (s : String) (ls : List String)
    → Ends s ls
    → Ends (String.◌∷◌ c s) (split_first c ls)
split_first-Ends c s [] h = absurd h
split_first-Ends c s (l ∷ []) h =
    elim (Bool-cases (is_char c b'/')) as (λ _. Ends (String.◌∷◌ c s) (split_first c (l ∷ []))) [
      | inl q ↦ rw q ("", c, q, rw nil-append (ap (String.◌∷◌ c) h))
      | inr q ↦ rw q (ap (String.◌∷◌ c) h)
    ]
split_first-Ends c s (l ∷ t ∷ ts) h =
    elim (Bool-cases (is_char c b'/'))
      as (λ _. Ends (String.◌∷◌ c s) (split_first c (l ∷ t ∷ ts))) [
        | inl q ↦ rw q (EndsIn-push c s (last_of t ts) h)
        | inr q ↦ rw q (EndsIn-push c s (last_of t ts) h)
      ]

path_parts-Ends : (s : String) → Ends s (path_parts s)
unfolding path_parts
path_parts-Ends String.[] = refl
path_parts-Ends (String.◌∷◌ c s) = split_first-Ends c s (path_parts s) (path_parts-Ends s)

Ends-last :
    (s : String) (ls : List String) → Ends s ls → (s ≡ last_of "" ls) ⊎ EndsIn s (last_of "" ls)
Ends-last s [] h = absurd h
Ends-last s (l ∷ []) h = inl h
Ends-last s (l ∷ t ∷ ts) h = inr h

pub last_segment-EndsIn : (s q : String) → last_segment s ≡ q → (s ≡ q) ⊎ EndsIn s q
last_segment-EndsIn s q e =
    subst (λ r. (s ≡ r) ⊎ EndsIn s r) e (Ends-last s (path_parts s) (path_parts-Ends s))

-- A branch is the one that is asked for, or the request names no branch in the namespace `codex/` and the
-- branch ends in it behind a slash.
abbrev pub Fits : Option String → String → Type 0
Fits none branch = Unit
Fits (some requested) branch =
    (branch ≡ requested) ⊎ ((starts_with requested "codex/" ≡ false) × EndsIn branch requested)

suffix-Fits :
    (requested branch : String)
    → (not (starts_with requested "codex/") && last_segment branch == requested) ≡ true
    → Fits (some requested) branch
suffix-Fits requested branch h = elim (Bool-cases (starts_with requested "codex/")) [
  | inl p ↦ let e : false ≡ true = sym (rw p refl) ∙ h in cc e
  | inr p ↦
      let e : (last_segment branch == requested) ≡ true = sym (rw p refl) ∙ h in
      ended p (last_segment-EndsIn branch requested ((eq_iff (last_segment branch) requested).0 e))
]
  where
    ended :
        starts_with requested "codex/" ≡ false
        → (branch ≡ requested) ⊎ EndsIn branch requested
        → Fits (some requested) branch
    ended p (inl e) = inl e
    ended p (inr e) = inr (p, e)

pub is_branch-Fits :
    (requested : Option String) (branch : String)
    → is_branch requested branch ≡ true
    → Fits requested branch
unfolding is_branch
is_branch-Fits none branch h = tt
is_branch-Fits (some requested) branch h = elim (Bool-cases (branch == requested)) [
  | inl p ↦ inl ((eq_iff branch requested).0 p)
  | inr p ↦ suffix-Fits requested branch (sym (rw p refl) ∙ h)
]
