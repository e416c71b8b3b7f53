-- ===== src/Delight/Window.antt =====
-- The window of scores of rust/starbridge-core/src/delight.rs: its length, and that no access to it
-- is out of bounds.
use cadet.Shared.{
  ℕ, zero, suc, ◌-◌, ◌≤◌, ◌<◌, ◌≡◌, refl, ap, ◌∙◌, leb, List, [], ◌∷◌, ok, ◌>>=◌, Bool-cases, inl,
  inr, ◌⊎◌, arith,
}
use cadet.Float.{Float}
use cadet.Prompt.Toon.{length}
use cadet.Delight.{
  remove_first, push, at, DelightGate, record_score, insert_sorted, sort, recompute_threshold, min,
}

length-push {ℓ} : {A : Type ℓ} (xs : List A) (a : A) → length (push xs a) ≡ suc (length xs)
length-push [] a = refl
length-push (x ∷ xs) a = ap suc (length-push xs a)

at_some {ℓ} :
    {A : Type ℓ} (xs : List A) (index : ℕ) → index < length xs → (a : A) × (at xs index ≡ ok a)
at_some [] index h = absurd (omega arith)
at_some (x ∷ xs) zero h = (x, refl)
at_some (x ∷ xs) (suc index) h = at_some xs index (omega arith)

-- A full window loses one score for the new one.
shifted {ℓ} :
    {A : Type ℓ} (xs : List A)
    → 0 < length xs
    → (ys : List A) × (remove_first xs ≡ ok ys) × (suc (length ys) ≡ length xs)
shifted [] h = absurd (omega arith)
shifted (x ∷ xs) h = (xs, refl, refl)

module _ ⦃F : Float⦄ where
  length-insert_sorted :
      (x : F.Carrier) (xs : List F.Carrier) → length (insert_sorted x xs) ≡ suc (length xs)
  length-insert_sorted x [] = refl
  length-insert_sorted x (y ∷ ys) = elim (Bool-cases (F.lt x y)) [
    | inl below ↦ rw below (ap suc (length-insert_sorted x ys))
    | inr other ↦ rw other refl
  ]

  length-sort : (xs : List F.Carrier) → length (sort xs) ≡ length xs
  length-sort [] = refl
  length-sort (x ∷ xs) = length-insert_sorted x (sort xs) ∙ ap suc (length-sort xs)

  -- The window after a score.
  pub record_score_ok :
      (gate : DelightGate) (delight : F.Carrier)
      → 0 < gate.window_size
      → length gate.recent_scores ≤ gate.window_size
      → (scores : List F.Carrier) × (record_score gate delight ≡ ok scores)
        × (length scores ≤ gate.window_size)
        × ((length scores ≡ suc (length gate.recent_scores)) ⊎ (length scores ≡ gate.window_size))
  unfolding ◌>>=◌
  record_score_ok gate delight some_room within =
      elim (Bool-cases (leb gate.window_size (length gate.recent_scores))) [
        | inl full ↦
            let (ys, e, one_less) = shifted gate.recent_scores (ground arith) in
            let l = length-push ys delight in
            (push ys delight, rw (full, e) refl, ground arith, inr (ground arith))
        | inr room ↦
            let l = length-push gate.recent_scores delight in
            (push gate.recent_scores delight, rw room refl, ground arith, inl l)
      ]

  pub recompute_threshold_ok :
      (rate : DelightGate → F.Carrier) (gate : DelightGate)
      → 0 < length gate.recent_scores
      → (threshold : F.Carrier) × (recompute_threshold rate gate
          ≡ ok (record gate { threshold = threshold; accepted_count = 0; total_count = 0 }))
  unfolding recompute_threshold ◌>>=◌
  recompute_threshold_ok rate gate h =
      let sorted = sort gate.recent_scores in
      let l = length-sort gate.recent_scores in
      let index =
        min (F.to_nat (F.mul (rate gate) (F.of_nat (length sorted)))) (length sorted - 1) in
      let inside : index < length sorted = ground arith in
      let (threshold, e) = at_some sorted index inside in (threshold, rw e refl)
