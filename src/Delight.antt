-- ===== src/Delight.antt =====
-- The delight of a trajectory and its gate, rust/starbridge-core/src/delight.rs. A `u64` wraps as in a
-- release build.
mod Window
pub mod Gate
use cadet.Shared.{
  ℕ, zero, suc, ◌+◌, ◌-◌, ◌%◌, ◌^◌, String, Bool, true, false, ◌&&◌, leb, ltb, nat_eq,
  if◌then◌else◌, List, [], ◌∷◌, Result, ok, panicked, ◌>>=◌,
}
use cadet.Float.{Float}
use cadet.Prompt.Toon.{length}

-- `n + 1` of a `u64`.
unfoldable pub u64_inc : ℕ → ℕ
u64_inc n = (n + 1) % 2 ^ 64

-- `Vec::remove(0)`
abbrev pub remove_first {ℓ} : {A : Type ℓ} → List A → Result (List A)
remove_first [] = panicked
remove_first (x ∷ xs) = ok xs

-- `Vec::push`
abbrev pub push {ℓ} : {A : Type ℓ} → List A → A → List A
push [] a = a ∷ []
push (x ∷ xs) a = x ∷ push xs a

-- `v[index]`
abbrev pub at {ℓ} : {A : Type ℓ} → List A → ℕ → Result A
at [] index = panicked
at (x ∷ xs) zero = ok x
at (x ∷ xs) (suc index) = at xs index

-- `trajectory_count < MIN_TRAJECTORIES_FOR_CLUSTERS`
unfoldable pub is_cold_start : ℕ → Bool
is_cold_start trajectory_count = ltb trajectory_count 20

abbrev pub min : ℕ → ℕ → ℕ
min a b = if leb a b then a else b

module _ ⦃F : Float⦄ where
  -- `x.clamp(0.0, 1.0)`
  abbrev pub clamp : F.Carrier → F.Carrier
  clamp x = if F.lt x F.zero then F.zero else if F.lt F.one x then F.one else x

  unfoldable pub compute_loss : F.Carrier → F.Carrier
  compute_loss composite_score = clamp (F.sub F.one composite_score)

  unfoldable pub compute_delight : F.Carrier → F.Carrier → F.Carrier
  compute_delight loss surprise = clamp (F.mul loss surprise)

  -- `max_distance <= 0.0`, which does not hold of what is not a number.
  unfoldable pub compute_surprise : F.Carrier → F.Carrier → F.Carrier
  compute_surprise distance max_distance =
      if F.le max_distance F.zero then F.one else clamp (F.div distance max_distance)

  pub record DelightGate : Type 0 where
    pub target_rate : F.Carrier
    pub min_rate : F.Carrier
    pub max_rate : F.Carrier
    pub recent_scores : List F.Carrier
    pub window_size : ℕ
    pub threshold : F.Carrier
    pub accepted_count : ℕ
    pub total_count : ℕ

  unfoldable pub new : F.Carrier → F.Carrier → F.Carrier → ℕ → DelightGate
  new target_rate min_rate max_rate window_size = record {
    target_rate = target_rate;
    min_rate = min_rate;
    max_rate = max_rate;
    recent_scores = [];
    window_size = window_size;
    threshold = F.zero;
    accepted_count = 0;
    total_count = 0;
  }

  -- The score goes to the end of the window, from whose front one is removed if it is full.
  abbrev pub record_score : DelightGate → F.Carrier → Result (List F.Carrier)
  record_score gate delight = do
    kept ←
        if leb gate.window_size (length gate.recent_scores)
        then remove_first gate.recent_scores
        else ok gate.recent_scores
    ok (push kept delight)

  unfoldable pub acceptance_rate : DelightGate → F.Carrier
  acceptance_rate gate =
      if nat_eq gate.total_count 0
      then F.zero
      else F.div (F.of_nat gate.accepted_count) (F.of_nat gate.total_count)

  -- `sort_by` with `b.partial_cmp(a)`: from the highest, and stable.
  abbrev pub insert_sorted : F.Carrier → List F.Carrier → List F.Carrier
  insert_sorted x [] = x ∷ []
  insert_sorted x (y ∷ ys) = if F.lt x y then y ∷ insert_sorted x ys else x ∷ (y ∷ ys)

  abbrev pub sort : List F.Carrier → List F.Carrier
  sort [] = []
  sort (x ∷ xs) = insert_sorted x (sort xs)

  abbrev pub half : F.Carrier → F.Carrier → F.Carrier
  half a b = F.div (F.add a b) (F.of_nat 2)

  -- The rate that the threshold is to let through.
  unfoldable pub effective_rate : DelightGate → F.Carrier
  unfolding acceptance_rate
  effective_rate gate =
      let current_rate = acceptance_rate gate in
      if F.lt current_rate gate.min_rate && ltb 100 gate.total_count
      then half gate.target_rate gate.max_rate
      else if F.lt gate.max_rate current_rate
      then half gate.target_rate gate.min_rate
      else gate.target_rate

  -- `recompute_threshold`, for a rate.
  unfoldable pub recompute_threshold : (DelightGate → F.Carrier) → DelightGate → Result DelightGate
  recompute_threshold rate gate = do
    let sorted = sort gate.recent_scores
    let target_index =
        min (F.to_nat (F.mul (rate gate) (F.of_nat (length sorted)))) (length sorted - 1)
    threshold ← at sorted target_index
    ok (record gate { threshold = threshold; accepted_count = 0; total_count = 0 })

  -- `should_buffer`, for a rate.
  unfoldable pub buffer_at :
      (DelightGate → F.Carrier) → F.Carrier → DelightGate → Result (Bool × DelightGate)
  buffer_at rate delight gate = do
    recent_scores ← record_score gate delight
    let total_count = u64_inc gate.total_count
    let passes = F.lt gate.threshold delight
    let counted = record gate {
      recent_scores = recent_scores;
      total_count = total_count;
      accepted_count = if passes then u64_inc gate.accepted_count else gate.accepted_count;
    }
    let recomputed = recompute_threshold rate counted
    gate ←
        if nat_eq (total_count % 50) 0 && leb 20 (length recent_scores)
        then recomputed
        else ok counted
    ok (passes, gate)

  unfoldable pub should_buffer : F.Carrier → DelightGate → Result (Bool × DelightGate)
  should_buffer delight gate = buffer_at effective_rate delight gate

  unfoldable pub force_accept : F.Carrier → DelightGate → Result DelightGate
  force_accept delight gate = do
    recent_scores ← record_score gate delight
    ok (record gate {
      recent_scores = recent_scores;
      total_count = u64_inc gate.total_count;
      accepted_count = u64_inc gate.accepted_count;
    })
