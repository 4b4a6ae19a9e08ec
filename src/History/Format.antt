-- ===== src/History/Format.antt =====
-- Which storage format a new thread is created with.
use mathlib.Core.Option.{some-injective}
use baijimu_digital_employee.Base.{
  ◌≡◌, refl, sym, ◌∙◌, ap, ◌⊎◌, inl, inr, ◌≢◌, String, Option, none, some, arith, ok, err, ◌==◌,
  eq_iff, eq-false, Bool-cases,
}
use baijimu_digital_employee.Json.{Value, null, boolean, number, array, string, object, Fields}
use baijimu_digital_employee.Json.Object
use baijimu_digital_employee.Json.Laws.{get-insert}
use baijimu_digital_employee.Http.{HttpError, Http}
use baijimu_digital_employee.History.{mode_of, unsupported_mode, configure_new_thread}

-- No format is asked for, or null, or the legacy one.
abbrev pub Supports : Option Value → Type 0
Supports mode = (mode ≡ none) ⊎ (mode ≡ some null) ⊎ (mode ≡ some (string "legacy"))

-- The parameters are accepted, with the legacy format and no other parameter changed, or refused for
-- the format that they ask for.
abbrev pub Chooses : Fields → Option (Http Value) → Type 0
Chooses fs r =
    (Supports (Object.get fs "historyMode")
      × ((out : Fields) × (r ≡ some (ok (object out)))
          × (Object.get out "historyMode" ≡ some (string "legacy"))
          × ((k : String) → k ≢ "historyMode" → Object.get out k ≡ Object.get fs k)))
    ⊎ (¬ Supports (Object.get fs "historyMode")
        × ((error : HttpError) × (r ≡ some (err error))
            × (error.status ≡ 400)
            × (error.code ≡ some (string "CODEX_HISTORY_MODE_UNSUPPORTED"))))

-- The parameters of a new thread, an object: if they ask for no format, for null or for the legacy format,
-- they are accepted, with the legacy format and no other parameter changed. If they ask for anything else,
-- they are refused, with status 400 and the code of an unsupported format.
pub configure_new_thread-legacy : (fs : Fields) → Chooses fs (configure_new_thread (object fs))
unfolding configure_new_thread
configure_new_thread-legacy fs = go (Object.get fs "historyMode") refl
  where
    inserted : Fields
    inserted = Object.insert fs "historyMode" (string "legacy")

    kept : (k : String) → k ≢ "historyMode" → Object.get inserted k ≡ Object.get fs k
    kept k n =
        get-insert fs "historyMode" k (string "legacy")
        ∙ rw (eq-false "historyMode" k (λ q. n (sym q))) refl

    chosen : Object.get inserted "historyMode" ≡ some (string "legacy")
    chosen = get-insert fs "historyMode" "historyMode" (string "legacy")

    refused :
        (mode : Value)
        → Object.get fs "historyMode" ≡ some mode
        → mode ≢ null
        → mode ≢ string "legacy"
        → Chooses fs (some unsupported_mode)
    refused mode p n m = inr (unsupported, (_, refl, refl, refl))
      where
        unsupported : ¬ Supports (Object.get fs "historyMode")
        unsupported (inl e) = let q : some mode ≡ none = sym p ∙ e in cc q
        unsupported (inr (inl e)) = n (some-injective mode null (sym p ∙ e))
        unsupported (inr (inr e)) = m (some-injective mode (string "legacy") (sym p ∙ e))

    go : (o : Option Value) → Object.get fs "historyMode" ≡ o → Chooses fs (some (mode_of fs o))
    go none p = inl (inl p, (inserted, refl, chosen, kept))
    go (some null) p = inl (inr (inl p), (inserted, refl, chosen, kept))
    go (some (string s)) p = elim (Bool-cases (s == "legacy")) [
      | inl q ↦
          let e = p ∙ ap (λ t. some (string t)) ((eq_iff s "legacy").0 q) in
          rw q (inl (inr (inr e), (fs, refl, e, λ k n. refl)))
      | inr q ↦ rw q (refused (string s) p (λ e. cc) (λ e. ground (arith, eq_iff s "legacy")))
    ]
    go (some (boolean b)) p = refused (boolean b) p (λ e. cc) (λ e. cc)
    go (some (number n)) p = refused (number n) p (λ e. cc) (λ e. cc)
    go (some (array l)) p = refused (array l) p (λ e. cc) (λ e. cc)
    go (some (object o)) p = refused (object o) p (λ e. cc) (λ e. cc)
