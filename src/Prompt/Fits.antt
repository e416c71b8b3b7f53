-- ===== src/Prompt/Fits.antt =====
-- `fit_to_budget` of rust/starbridge-core/src/context_engine.rs: the sum of what it keeps, and what it
-- keeps.
use Prim.Native.String.{◌++◌}
use text.Mathlib.TextLemmas.{cons-append, nil-append}
use cadet.Shared.{
  ℕ, ◌+◌, ◌*◌, ◌%◌, ◌^◌, ◌≤◌, ◌<◌, String, ◌≡◌, ap, ◌∙◌, leb, if◌then◌else◌, List, [], ◌∷◌, arith,
  Bool-cases, inl, inr,
}
use cadet.Prompt.Budget.{weigh, byte_len, estimate_tokens, ContextFragment, fit, fit_to_budget}

abbrev pub append {ℓ} : {A : Type ℓ} → List A → List A → List A
append [] ys = ys
append (x ∷ xs) ys = x ∷ append xs ys

abbrev pub total : List ContextFragment → ℕ
total [] = 0
total (frag ∷ fragments) = frag.tokens + total fragments

-- No sum of `fit_to_budget` wraps: a fragment on top of the budget stays below 2 ^ 32.
abbrev pub NoWrap : ℕ → List ContextFragment → Type 0
NoWrap budget [] = Unit
NoWrap budget (frag ∷ fragments) = (budget + frag.tokens < 2 ^ 32) × NoWrap budget fragments

pub weigh-append : (w : ℕ → ℕ) (s t : String) → weigh w (s ++ t) ≡ weigh w s + weigh w t
weigh-append w String.[] t = ap (weigh w) (nil-append t) ∙ omega arith
weigh-append w (String.◌∷◌ c s) t =
    ap (weigh w) (cons-append c s t) ∙ ground (arith, weigh-append w s t)

pub estimate_tokens_bounds :
    (text : String)
    → byte_len text + 3 < 2 ^ 32
    → (byte_len text ≤ 4 * estimate_tokens text) × (4 * estimate_tokens text ≤ byte_len text + 3)
unfolding estimate_tokens
estimate_tokens_bounds text h = (omega arith, omega arith)

module _ (budget : ℕ) where
  fit-total :
      (used : ℕ) (fragments : List ContextFragment)
      → used ≤ budget
      → NoWrap budget fragments
      → used + total (fit budget used fragments) ≤ budget
  unfolding fit
  fit-total used [] h n = omega arith
  fit-total used (frag ∷ fragments) h (fits, n) =
      ground (arith, fit-total used fragments h n, fit-total (used + frag.tokens) fragments)

  fit-append :
      (used : ℕ) (xs ys : List ContextFragment)
      → used ≤ budget
      → NoWrap budget xs
      → fit budget used (append xs ys)
        ≡ append (fit budget used xs) (fit budget (used + total (fit budget used xs)) ys)
  unfolding fit
  fit-append used [] ys h n =
      let same : used ≡ used + 0 = omega arith in ap (λ u. fit budget u ys) same
  fit-append used (frag ∷ xs) ys h (fits, n) =
      let sum : (used + frag.tokens) % 2 ^ 32 ≡ used + frag.tokens = omega arith in
      elim (Bool-cases (leb (used + frag.tokens) budget)) [
        | inl takes ↦
            let le : used + frag.tokens ≤ budget = ground arith in
            let kept = total (fit budget (used + frag.tokens) xs) in
            let assoc : used + frag.tokens + kept ≡ used + (frag.tokens + kept) = omega arith in
            let ih = fit-append (used + frag.tokens) xs ys le n in
            rw (sum, takes, ← assoc) (ap (λ fragments. frag ∷ fragments) ih)
        | inr leaves ↦ rw (sum, leaves) (fit-append used xs ys h n)
      ]

  NoWrap-append_left :
      (xs ys : List ContextFragment) → NoWrap budget (append xs ys) → NoWrap budget xs
  NoWrap-append_left [] ys n = tt
  NoWrap-append_left (frag ∷ xs) ys (fits, n) = (fits, NoWrap-append_left xs ys n)

  NoWrap-append_right :
      (xs ys : List ContextFragment) → NoWrap budget (append xs ys) → NoWrap budget ys
  NoWrap-append_right [] ys n = n
  NoWrap-append_right (frag ∷ xs) ys (fits, n) = NoWrap-append_right xs ys n

  -- Whether a fragment is kept depends on those before it alone: it is kept exactly if it fits on top
  -- of what is kept of them. This holds if no sum of the fragments' tokens with the budget reaches
  -- 2 ^ 32.
  pub fit_to_budget-append :
      (frag : ContextFragment) (fragments : List ContextFragment)
      → NoWrap budget (append fragments (frag ∷ []))
      → fit_to_budget (append fragments (frag ∷ [])) budget
        ≡ append (fit_to_budget fragments budget) (
            if leb (total (fit_to_budget fragments budget) + frag.tokens) budget
            then frag ∷ []
            else [])
  unfolding fit_to_budget fit
  fit_to_budget-append frag fragments n =
      let n_left = NoWrap-append_left fragments (frag ∷ []) n in
      let (fits, _) = NoWrap-append_right fragments (frag ∷ []) n in
      let kept = total (fit budget 0 fragments) in
      let least : 0 ≤ budget = omega arith in
      let below : 0 + kept ≤ budget = fit-total 0 fragments least n_left in
      let sum : (0 + kept + frag.tokens) % 2 ^ 32 ≡ kept + frag.tokens = omega arith in
      rw sum at (fit-append 0 fragments (frag ∷ []) least n_left)

  -- What is kept costs no more than the budget, if no sum of a fragment's tokens with the budget
  -- reaches 2 ^ 32.
  pub total-fit_to_budget :
      (fragments : List ContextFragment)
      → NoWrap budget fragments
      → total (fit_to_budget fragments budget) ≤ budget
  unfolding fit_to_budget
  total-fit_to_budget fragments n =
      let below : 0 + total (fit budget 0 fragments) ≤ budget =
        fit-total 0 fragments (omega arith) n in
      omega arith
