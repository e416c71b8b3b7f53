-- ===== src/System/Senders/Stored.antt =====
-- The three reducers of spacetimedb/src/lib.rs that store the identity of the caller: whether they
-- succeed, and with what error, does not depend on it.
use cadet.Shared.{
  String, refl, ◌≡◌, ◌∙◌, sym, ap, Result, ok, err, panicked, ◌>>=◌, Option-cases, inl, inr,
}
use cadet.Shared.Int.{ℤ}
use cadet.Store.{Store}
use cadet.Db.{Db}
use cadet.Reducers.Jobs.{enqueue_job}
use cadet.Reducers.Schedules.{claim_schedule_run}
use cadet.Reducers.Operators.{register_operator}

-- How a result ends: well, with this error, or in a panic.
abbrev pub ending {ℓ} : {A : Type ℓ} → Result A → Result (Unit {0})
ending (ok a) = ok tt
ending (err message) = err message
ending panicked = panicked

module _ {ℓ κ} {A : Type ℓ} {B : Type κ} where
  ending-bind :
      (r r' : Result A) (f g : A → Result B)
      → ending r ≡ ending r'
      → ((a a' : A) → ending (f a) ≡ ending (g a'))
      → ending (r >>= f) ≡ ending (r' >>= g)
  unfolding ◌>>=◌
  ending-bind (ok a) (ok a') f g e h = h a a'
  ending-bind (ok a) (err message) f g e h = cc
  ending-bind (ok a) panicked f g e h = cc
  ending-bind (err message) (ok a') f g e h = cc
  ending-bind (err message) (err other) f g e h = cc
  ending-bind (err message) panicked f g e h = cc
  ending-bind panicked (ok a') f g e h = cc
  ending-bind panicked (err message) f g e h = cc
  ending-bind panicked panicked f g e h = refl

  -- The same first part.
  ending-after :
      (r : Result A) (f g : A → Result B)
      → ((a : A) → ending (f a) ≡ ending (g a))
      → ending (r >>= f) ≡ ending (r >>= g)
  unfolding ◌>>=◌
  ending-after (ok a) f g h = h a
  ending-after (err message) f g h = refl
  ending-after panicked f g h = refl

module _ ⦃S : Store⦄ where
  -- An insert looks at the key of the row alone.
  ending-insert :
      {R : Type 0} {key : R → String} (t : S.Table R key) (r r' : R)
      → key r ≡ key r'
      → ending (S.insert t r) ≡ ending (S.insert t r')
  ending-insert {key} t r r' e = elim (Option-cases (S.find t (key r))) [
    | inl free ↦
        let (u, inserted) = S.insert_new t r free in
        let (u', inserted') = S.insert_new t r' (sym (ap (S.find t) e) ∙ free) in
        rw (inserted, inserted') refl
    | inr (old, taken) ↦
        rw (S.insert_taken t r old taken, S.insert_taken t r' old (sym (ap (S.find t) e) ∙ taken))
          refl
  ]

  module _ (time : ℤ) (sender sender' : S.Identity) (db : Db) where
    pub ending-enqueue_job :
        (job_id agent_id goal priority requested_by context_json : String)
        → ending (
            enqueue_job
              (record { timestamp = time; sender = sender })
              job_id
              agent_id
              goal
              priority
              requested_by
              context_json
              db)
          ≡ ending (
              enqueue_job
                (record { timestamp = time; sender = sender' })
                job_id
                agent_id
                goal
                priority
                requested_by
                context_json
                db)
    unfolding enqueue_job
    ending-enqueue_job x0 x1 x2 x3 x4 x5 = ending-after _ _ _ λ _. ending-after _ _ _ λ _.
        ending-after _ _ _ λ _. ending-after _ _ _ λ _. ending-after _ _ _ λ _.
          ending-after _ _ _
            λ _. ending-after _ _ _ λ _. ending-bind _ _ _ _ (ending-insert _ _ _ refl) λ _ _. refl

    pub ending-claim_schedule_run :
        (schedule_id control_plane : String) (expected : ℤ) (job_id context_json : String)
        → ending (
            claim_schedule_run
              (record { timestamp = time; sender = sender })
              schedule_id
              control_plane
              expected
              job_id
              context_json
              db)
          ≡ ending (
              claim_schedule_run
                (record { timestamp = time; sender = sender' })
                schedule_id
                control_plane
                expected
                job_id
                context_json
                db)
    unfolding claim_schedule_run
    ending-claim_schedule_run x0 x1 x2 x3 x4 = ending-after _ _ _ λ _. ending-after _ _ _ λ _.
        ending-after _ _ _ λ _. ending-after _ _ _ λ _. ending-after _ _ _ λ _.
          ending-after _ _ _ λ _. ending-after _ _ _ λ _. ending-after _ _ _ λ _.
            ending-after _ _ _ λ _. ending-after _ _ _ λ _.
              ending-bind _ _ _ _ (ending-insert _ _ _ refl)
                λ _ _. ending-after _ _ _ λ _. ending-after _ _ _ λ _. refl

    pub ending-register_operator :
        (operator_id display_name email credential_id public_key_json transports_json : String)
        → ending (
            register_operator
              (record { timestamp = time; sender = sender })
              operator_id
              display_name
              email
              credential_id
              public_key_json
              transports_json
              db)
          ≡ ending (
              register_operator
                (record { timestamp = time; sender = sender' })
                operator_id
                display_name
                email
                credential_id
                public_key_json
                transports_json
                db)
    unfolding register_operator
    ending-register_operator x0 x1 x2 x3 x4 x5 = ending-after _ _ _ λ _. ending-after _ _ _ λ _.
        ending-after _ _ _ λ _.
          ending-after _ _ _
            λ _. ending-bind _ _ _ _ (ending-insert _ _ _ refl) λ _ _. ending-after _ _ _ λ _. refl
