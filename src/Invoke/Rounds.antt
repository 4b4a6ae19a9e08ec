-- ===== src/Invoke/Rounds.antt =====
-- What every round of the listing keeps, its listing keeps.
use baijimu_digital_employee.Base.{
  ℕ, zero, suc, ◌≡◌, refl, ap, subst, inl, inr, String, ◌||◌, Option, some, length, ok, err,
  Bool-cases, Option-cases,
}
use baijimu_digital_employee.Json.{Value}
use baijimu_digital_employee.Http.{Http}
use baijimu_digital_employee.Map
use baijimu_digital_employee.Map.{Map, string_order}
use baijimu_digital_employee.Invoke.Paging.{
  Listing, Request, page_params, requested_limit, add_page, is_last_page, to_next, result_of,
  after_page, received, collect, finish,
}

abbrev unwrap : Listing → Http Listing → Listing
unwrap l (err e) = l
unwrap l (ok m) = m

ok-path :
    (P : Listing → Type 0) {l out : Listing} → P l → ◌≡◌ {A = Http Listing} (ok l) (ok out) → P out
ok-path P {l} h e = subst P (ap (unwrap l) e) h

module _ {S : Type 0} (request : Request S) (print : Value → String) (method : String)
    (params : Value) (timeout : Option ℕ) where
  -- The page is one that is asked for in the state of the loop.
  abbrev pub Asked : Listing → Value → S → Value → Type 0
  Asked l page s answer =
      (page_params params l.cursor (requested_limit params) (length l.merged.threads) ≡ some page)
      × ((request method page timeout s).0 ≡ ok answer)

  module _ (P : Listing → Type 0)
      (step : (l : Listing) (page : Value) (s : S) (answer : Value)
        → P l
        → Asked l page s answer
        → P (add_page l answer))
      (next : (l : Listing) → P l → P (to_next print l)) where
    after_page-keeps :
        (more : Listing → S → Http Listing × S) (limit : Option ℕ) (answer : Value) (l : Listing)
        (s : S) (out : Listing)
        → ((l : Listing) (s : S) → P l → (more l s).0 ≡ ok out → P out)
        → P l
        → (after_page request print more limit answer l s).0 ≡ ok out
        → P out
    unfolding after_page
    after_page-keeps more limit answer l s out k h =
        elim (Bool-cases
            (is_last_page limit answer l || Map.contains_key l.visited (print l.next_cursor)))
          as (λ _. (after_page request print more limit answer l s).0 ≡ ok out → P out) [
            | inl p ↦ rw (p, after_page) (λ e. ok-path P h e)
            | inr p ↦ rw (p, after_page) (k (to_next print l) s (next l h))
          ]

    received-keeps :
        (more : Listing → S → Http Listing × S) (limit : Option ℕ) (l : Listing)
        (r : Http Value × S) (out : Listing)
        → ((l : Listing) (s : S) → P l → (more l s).0 ≡ ok out → P out)
        → ((answer : Value) → r.0 ≡ ok answer → P (add_page l answer))
        → (received request print more limit l r).0 ≡ ok out
        → P out
    received-keeps more limit l (err why, s) out k h e = cc
    received-keeps more limit l (ok answer, s) out k h e =
        after_page-keeps more limit answer (add_page l answer) s out k (h answer refl) e

    pub collect-keeps :
        (n : ℕ) (l : Listing) (s : S) (out : Listing)
        → P l
        → (collect request print n method params timeout l s).0 ≡ ok out
        → P out
    unfolding collect
    collect-keeps zero l s out h = λ e. ok-path P h e
    collect-keeps (suc n) l s out h =
        elim (Option-cases
            (page_params params l.cursor (requested_limit params) (length l.merged.threads)))
          as (λ _. (collect request print (suc n) method params timeout l s).0 ≡ ok out → P out) [
            | inl p ↦ rw (p, collect) (λ e. ok-path P h e)
            | inr (page, p) ↦
                rw (p, collect)
                  (received-keeps (collect request print n method params timeout)
                    (requested_limit params) l (request method page timeout s) out
                    (λ l s h. collect-keeps n l s out h)
                    (λ answer q. step l page s answer h (p, q)))
          ]

  pub finish-eq-ok :
      (r : Http Listing × S) (v : Value)
      → (finish request print r).0 ≡ ok v
      → (l : Listing) × (r.0 ≡ ok l) × (result_of l ≡ v)
  finish-eq-ok (err e, s) v h = cc
  finish-eq-ok (ok l, s) v h = (l, refl, cc)
