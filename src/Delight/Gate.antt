-- ===== src/Delight/Gate.antt =====
-- The gate of rust/starbridge-core/src/delight.rs over a sequence of scores.
use cadet.Shared.{
  ℕ, ◌+◌, ◌*◌, suc, ◌%◌, ◌≤◌, ◌<◌, ◌≡◌, refl, sym, ◌∙◌, Bool, ◌&&◌, leb, nat_eq, if◌then◌else◌,
  List, [], ◌∷◌, Result, ok, ◌>>=◌, Bool-cases, inl, inr, ◌⊎◌, arith,
}
use cadet.Float.{Float}
use cadet.Delight.Window.{record_score_ok, recompute_threshold_ok}
use cadet.Prompt.Toon.{length}
use cadet.Delight.{
  u64_inc, DelightGate, new, acceptance_rate, half, effective_rate, recompute_threshold, buffer_at,
  force_accept,
}

module _ ⦃F : Float⦄ where
  -- The rate without the relaxation of the source.
  unfoldable pub strict_rate : DelightGate → F.Carrier
  strict_rate gate =
      if F.lt gate.max_rate (acceptance_rate gate)
      then half gate.target_rate gate.min_rate
      else gate.target_rate

  -- What a gate keeps after so many calls of `force_accept`: the window is not above its size, which is
  -- at least 20, and the count is below 50, and 50 more for each of these calls.
  pub record Kept (forced : ℕ) (gate : DelightGate) : Type 0 where
    pub wide : 20 ≤ gate.window_size
    pub window : length gate.recent_scores ≤ gate.window_size
    pub count : gate.total_count < 50 + 50 * forced
    pub seen : (20 ≤ length gate.recent_scores) ⊎ (gate.total_count ≤ length gate.recent_scores)

  recompute_agrees :
      (rate rate' : DelightGate → F.Carrier) (gate : DelightGate)
      → rate gate ≡ rate' gate
      → recompute_threshold rate gate ≡ recompute_threshold rate' gate
  unfolding recompute_threshold
  recompute_agrees rate rate' gate e = rw e refl

  -- A new gate with a window of 20 or more.
  new-Kept :
      (target_rate min_rate max_rate : F.Carrier) (window_size : ℕ)
      → 20 ≤ window_size
      → Kept 0 (new target_rate min_rate max_rate window_size)
  unfolding new
  new-Kept target_rate min_rate max_rate window_size h = record {
    wide = h;
    window = omega arith;
    count = omega arith;
    seen = inr (omega arith);
  }

  rates_agree :
      (gate : DelightGate) → gate.total_count ≤ 100 → effective_rate gate ≡ strict_rate gate
  unfolding effective_rate strict_rate
  rates_agree gate h = ground arith

  -- The end of `should_buffer`, for a rate.
  abbrev settle : (DelightGate → F.Carrier) → DelightGate → Result DelightGate
  settle rate gate =
      if nat_eq (gate.total_count % 50) 0 && leb 20 (length gate.recent_scores)
      then recompute_threshold rate gate
      else ok gate

  -- The threshold is recomputed at a count of 50 or, after a call of `force_accept`, of 100.
  settle_ok :
      (forced : ℕ) (gate : DelightGate)
      → forced ≤ 1
      → 20 ≤ gate.window_size
      → length gate.recent_scores ≤ gate.window_size
      → 0 < gate.total_count
      → gate.total_count ≤ 50 + 50 * forced
      → ((20 ≤ length gate.recent_scores) ⊎ (gate.total_count ≤ length gate.recent_scores))
      → (after : DelightGate) × (settle effective_rate gate ≡ ok after)
        × (settle strict_rate gate ≡ ok after)
        × Kept forced after
  settle_ok forced gate once wide window counts most seen =
      elim (Bool-cases (nat_eq (gate.total_count % 50) 0 && leb 20 (length gate.recent_scores))) [
        | inl due ↦
            let some_scores : 0 < length gate.recent_scores = ground arith in
            let (threshold, e) = recompute_threshold_ok effective_rate gate some_scores in
            let same =
              recompute_agrees effective_rate strict_rate gate (rates_agree gate (omega arith)) in
            (
              record gate { threshold = threshold; accepted_count = 0; total_count = 0 },
              rw due e,
              rw due (sym same ∙ e),
              record {
                wide = wide;
                window = window;
                count = omega arith;
                seen = inr (omega arith);
              },
            )
        | inr not_due ↦ (
          gate,
          rw not_due refl,
          rw not_due refl,
          record { wide = wide; window = window; count = ground arith; seen = seen },
        )
      ]

  -- One score.
  buffer_at_step :
      (forced : ℕ) (gate : DelightGate) (delight : F.Carrier)
      → forced ≤ 1
      → Kept forced gate
      → (passes : Bool) × ((after : DelightGate) × (buffer_at effective_rate delight gate
            ≡ ok (passes, after))
          × (buffer_at strict_rate delight gate ≡ ok (passes, after))
          × Kept forced after)
  unfolding buffer_at u64_inc ◌>>=◌
  buffer_at_step forced gate delight once k =
      let wide = k.wide in
      let count = k.count in
      let room : 0 < gate.window_size = omega arith in
      let (scores, recorded, within, grown) = record_score_ok gate delight room k.window in
      let passes = F.lt gate.threshold delight in
      let counted : DelightGate = record gate {
        recent_scores = scores;
        total_count = u64_inc gate.total_count;
        accepted_count = if passes then u64_inc gate.accepted_count else gate.accepted_count;
      } in
      let seen : (20 ≤ length scores) ⊎ (u64_inc gate.total_count ≤ length scores) = elim grown [
        | inl more ↦ elim k.seen [ inl enough ↦ inl (omega arith) | inr all ↦ inr (omega arith) ]
        | inr full ↦ inl (omega arith)
      ] in
      let (after, done, strictly, kept) =
        settle_ok forced counted once wide within (omega arith) (omega arith) seen in
      (passes, (after, rw (recorded, done) refl, rw (recorded, strictly) refl, kept))

  -- One score that is forced, where none was.
  force_accept_step :
      (gate : DelightGate) (delight : F.Carrier)
      → Kept 0 gate
      → (after : DelightGate) × (force_accept delight gate ≡ ok after) × Kept 1 after
  unfolding force_accept u64_inc ◌>>=◌
  force_accept_step gate delight k =
      let wide = k.wide in
      let count = k.count in
      let room : 0 < gate.window_size = omega arith in
      let (scores, recorded, within, grown) = record_score_ok gate delight room k.window in
      let seen : (20 ≤ length scores) ⊎ (u64_inc gate.total_count ≤ length scores) = elim grown [
        | inl more ↦ elim k.seen [ inl enough ↦ inl (omega arith) | inr all ↦ inr (omega arith) ]
        | inr full ↦ inl (omega arith)
      ] in
      let after : DelightGate = record gate {
        recent_scores = scores;
        total_count = u64_inc gate.total_count;
        accepted_count = u64_inc gate.accepted_count;
      } in
      (
        after,
        rw recorded refl,
        record { wide = wide; window = within; count = omega arith; seen = seen },
      )

  -- A score that is offered with `should_buffer`, or forced with `force_accept`.
  pub data Event : Type 0 where
    scored forced : F.Carrier → Event

  abbrev pub forced_count : List Event → ℕ
  forced_count [] = 0
  forced_count (Event.scored delight ∷ events) = forced_count events
  forced_count (Event.forced delight ∷ events) = suc (forced_count events)

  -- The calls of a sequence; what they answer is dropped.
  unfoldable pub run_with :
      (DelightGate → F.Carrier) → List Event → DelightGate → Result DelightGate
  run_with rate [] gate = ok gate
  run_with rate (Event.scored delight ∷ events) gate = do
    (passes, after) ← buffer_at rate delight gate
    run_with rate events after
  run_with rate (Event.forced delight ∷ events) gate = do
    after ← force_accept delight gate
    run_with rate events after

  run_with_ok :
      (before : ℕ) (events : List Event) (gate : DelightGate)
      → before + forced_count events ≤ 1
      → Kept before gate
      → (after : DelightGate) × (run_with effective_rate events gate ≡ ok after)
        × (run_with strict_rate events gate ≡ ok after)
        × Kept (before + forced_count events) after
  unfolding run_with ◌>>=◌
  run_with_ok before [] gate once k =
      let same : before + 0 ≡ before = omega arith in (gate, refl, refl, rw same k)
  run_with_ok before (Event.scored delight ∷ events) gate once k =
      let (passes, step) = buffer_at_step before gate delight (omega arith) k in
      let (next, done, strictly, kept) = step in
      let (after, ends, ends_strictly, k') = run_with_ok before events next once kept in
      (after, rw done ends, rw strictly ends_strictly, k')
  run_with_ok before (Event.forced delight ∷ events) gate once k =
      let first : before ≡ 0 = omega arith in
      let (next, done, kept) = force_accept_step gate delight (rw first at k) in
      let (after, ends, ends_strictly, k') = run_with_ok 1 events next (omega arith) kept in
      let same : before + suc (forced_count events) ≡ 1 + forced_count events = omega arith in
      (after, rw done ends, rw done ends_strictly, rw same k')

  pub run_with-strict :
      (events : List Event) (target_rate min_rate max_rate : F.Carrier) (window_size : ℕ)
      → 20 ≤ window_size
      → forced_count events ≤ 1
      → (after : DelightGate) × (run_with effective_rate events
            (new target_rate min_rate max_rate window_size)
          ≡ ok after)
        × (run_with strict_rate events (new target_rate min_rate max_rate window_size) ≡ ok after)
        × Kept (forced_count events) after
  run_with-strict events target_rate min_rate max_rate window_size h once =
      let same : 0 + forced_count events ≡ forced_count events = omega arith in
      let (after, ends, ends_strictly, kept) =
        run_with_ok 0 events (new target_rate min_rate max_rate window_size) (omega arith)
          (new-Kept target_rate min_rate max_rate window_size h) in
      (after, ends, ends_strictly, rw same at kept)
