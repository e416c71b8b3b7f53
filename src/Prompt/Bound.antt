-- ===== src/Prompt/Bound.antt =====
-- The length of what `build_prompt` returns.
use Prim.Native.String.{◌++◌}
use cadet.Shared.{
  ℕ, suc, ◌+◌, ◌*◌, ◌%◌, ◌^◌, ◌≤◌, ◌<◌, ◌-◌, String, ◌≡◌, refl, Bool, true, false, leb, Option,
  some, none, List, [], ◌∷◌, arith, Bool-cases, inl, inr,
}
use cadet.Prompt.Toon.{length}
use cadet.Prompt.Budget.{
  byte_len, utf8_len, estimate_tokens, ContextFragment, new, fit, fit_to_budget, assemble,
  following,
}
use cadet.Prompt.Fits.{NoWrap, total, weigh-append, estimate_tokens_bounds, total-fit_to_budget}
use cadet.Prompt.Build.{PromptData, push_if, push_sender, push_previous, fragments, build_prompt}

abbrev pub AllOf : (ContextFragment → Type 0) → List ContextFragment → Type 0
AllOf P [] = Unit
AllOf P (frag ∷ rest) = P frag × AllOf P rest

-- The length of the content is a `u32`, with room for rounding up.
abbrev pub IsShort : ContextFragment → Type 0
IsShort frag = byte_len frag.content + 3 < 2 ^ 32

-- The tokens are what `ContextFragment::new` estimates.
abbrev IsEstimated : ContextFragment → Type 0
IsEstimated frag = frag.tokens ≡ estimate_tokens frag.content

abbrev IsPriced : ContextFragment → Type 0
IsPriced frag = (byte_len frag.content ≤ 4 * frag.tokens) × (frag.tokens < 2 ^ 30)

push_if-IsEstimated :
    (b : Bool) (source content : String) (rest : List ContextFragment)
    → AllOf IsEstimated rest
    → AllOf IsEstimated (push_if b (new source content) rest)
unfolding new
push_if-IsEstimated true source content rest h = (refl, h)
push_if-IsEstimated false source content rest h = h

push_sender-IsEstimated :
    (prompt : PromptData) (name : Option String) (rest : List ContextFragment)
    → AllOf IsEstimated rest
    → AllOf IsEstimated (push_sender prompt name rest)
unfolding new
push_sender-IsEstimated prompt none rest h = h
push_sender-IsEstimated prompt (some name) rest h = (refl, h)

push_previous-IsEstimated :
    (prev : Option String) (rest : List ContextFragment)
    → AllOf IsEstimated rest
    → AllOf IsEstimated (push_previous prev rest)
unfolding new
push_previous-IsEstimated none rest h = h
push_previous-IsEstimated (some prev) rest h = (refl, h)

cons-IsEstimated :
    (source content : String) (rest : List ContextFragment)
    → AllOf IsEstimated rest
    → AllOf IsEstimated (new source content ∷ rest)
unfolding new
cons-IsEstimated source content rest h = (refl, h)

fragments-IsEstimated : (prompt : PromptData) → AllOf IsEstimated (fragments prompt)
unfolding fragments
fragments-IsEstimated prompt =
    search
      (
        push_if-IsEstimated, push_sender-IsEstimated, push_previous-IsEstimated, cons-IsEstimated,
        tt,
      )
      depth 30

IsPriced-all :
    (fragments : List ContextFragment)
    → AllOf IsEstimated fragments
    → AllOf IsShort fragments
    → AllOf IsPriced fragments
unfolding estimate_tokens
IsPriced-all [] e s = tt
IsPriced-all (frag ∷ rest) (e, es) (s, ss) =
    let bounds = estimate_tokens_bounds frag.content s in
    ((omega arith, omega arith), IsPriced-all rest es ss)

priced-NoWrap :
    (budget : ℕ) (fragments : List ContextFragment)
    → budget ≤ 3 * 2 ^ 30
    → AllOf IsPriced fragments
    → NoWrap budget fragments
priced-NoWrap budget [] b p = tt
priced-NoWrap budget (frag ∷ rest) b (p, ps) = (omega arith, priced-NoWrap budget rest b ps)

fit-AllOf :
    (P : ContextFragment → Type 0) (budget used : ℕ) (fragments : List ContextFragment)
    → AllOf P fragments
    → AllOf P (fit budget used fragments)
unfolding fit
fit-AllOf P budget used [] p = tt
fit-AllOf P budget used (frag ∷ rest) (p, ps) =
    let sum = (used + frag.tokens) % 2 ^ 32 in
    elim (Bool-cases (leb sum budget)) [
      | inl takes ↦ rw takes (p, fit-AllOf P budget sum rest ps)
      | inr leaves ↦ rw leaves (fit-AllOf P budget used rest ps)
    ]

length-fit :
    (budget used : ℕ) (fragments : List ContextFragment)
    → length (fit budget used fragments) ≤ length fragments
unfolding fit
length-fit budget used [] = omega arith
length-fit budget used (frag ∷ rest) =
    ground
      (arith, length-fit budget ((used + frag.tokens) % 2 ^ 32) rest, length-fit budget used rest)

byte_len-following :
    (fragments : List ContextFragment)
    → AllOf IsPriced fragments
    → byte_len (following fragments) ≤ 4 * total fragments + length fragments
byte_len-following [] p = omega arith
byte_len-following (frag ∷ rest) (p, ps) =
    let ih = byte_len-following rest ps in
    let inner = weigh-append utf8_len frag.content (following rest) in
    let outer = weigh-append utf8_len "\n" (frag.content ++ following rest) in omega arith

byte_len-assemble :
    (fragments : List ContextFragment)
    → AllOf IsPriced fragments
    → byte_len (assemble fragments) ≤ 4 * total fragments + (length fragments - 1)
unfolding assemble
byte_len-assemble [] p = omega arith
byte_len-assemble (frag ∷ rest) (p, ps) =
    let tail = byte_len-following rest ps in
    let whole = weigh-append utf8_len frag.content (following rest) in omega arith

module _ (rest : List ContextFragment) (n : ℕ) (h : length rest ≤ n) where
  length-cons : (frag : ContextFragment) → length (frag ∷ rest) ≤ suc n
  length-cons frag = omega arith

  length-push_if : (b : Bool) (frag : ContextFragment) → length (push_if b frag rest) ≤ suc n
  length-push_if true frag = omega arith
  length-push_if false frag = omega arith

  length-push_sender :
      (prompt : PromptData) (name : Option String) → length (push_sender prompt name rest) ≤ suc n
  length-push_sender prompt none = omega arith
  length-push_sender prompt (some name) = omega arith

  length-push_previous : (prev : Option String) → length (push_previous prev rest) ≤ suc n
  length-push_previous none = omega arith
  length-push_previous (some prev) = omega arith

length-nil : length {A = ContextFragment} [] ≤ 0
length-nil = omega arith

length-fragments : (prompt : PromptData) → length (fragments prompt) ≤ 11
unfolding fragments
length-fragments prompt =
    search (length-cons, length-push_if, length-push_sender, length-push_previous, length-nil) depth
      30

-- The prompt has at most 4 bytes for each token of the budget, and 10 for the line breaks between
-- its parts: if the budget is at most 3 * 2 ^ 30 tokens, and no part comes near 2 ^ 32 bytes.
pub byte_len-build_prompt :
    (prompt : PromptData)
    → prompt.token_budget ≤ 3 * 2 ^ 30
    → AllOf IsShort (fragments prompt)
    → byte_len (build_prompt prompt) ≤ 4 * prompt.token_budget + 10
unfolding build_prompt fit_to_budget
byte_len-build_prompt prompt b s =
    let all = fragments prompt in
    let priced = IsPriced-all all (fragments-IsEstimated prompt) s in
    let within =
      total-fit_to_budget prompt.token_budget all
        (priced-NoWrap prompt.token_budget all b priced) in
    let kept = fit prompt.token_budget 0 all in
    let few = length-fit prompt.token_budget 0 all in
    let most = length-fragments prompt in
    let long = byte_len-assemble kept (fit-AllOf IsPriced prompt.token_budget 0 all priced) in
    omega arith
