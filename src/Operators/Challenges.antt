-- ===== src/Operators/Challenges.antt =====
-- `delete_expired_challenges`.
use cadet.Shared.{
  String, ◌≡◌, refl, ◌∙◌, sym, ap, true, ◌==◌, eq_iff, eq_refl, arith, if◌then◌else◌, Option, none,
  some, Option-cases, Bool-cases, inl, inr, List, [], ◌∷◌, Among, ok,
}
use cadet.Shared.Int.{ℤ, ltb_ℤ}
use cadet.Store.{Store, delete_all}
use cadet.Text.Choice.{is_one_of}
use cadet.Rows.Operators.{AuthChallenge}
use cadet.Db.{Db, Context, now_micros}
use cadet.Reducers.Operators.{expired_ids, delete_expired_challenges}
use cadet.Store.Deleted.{find-delete_all}

-- What is left of a challenge at a time.
abbrev pub live : ℤ → Option AuthChallenge → Option AuthChallenge
live now none = none
live now (some c) = if ltb_ℤ c.expires_at_micros now then none else some c

module _ (now : ℤ) where
  expired_ids_complete :
      (challenges : List AuthChallenge) (c : AuthChallenge)
      → Among c challenges
      → ltb_ℤ c.expires_at_micros now ≡ true
      → is_one_of c.challenge_id (expired_ids now challenges) ≡ true
  unfolding expired_ids
  expired_ids_complete [] c among old = absurd among
  expired_ids_complete (d ∷ challenges) c (inl is) old = rw (← is, old, eq_refl c.challenge_id) refl
  expired_ids_complete (d ∷ challenges) c (inr among) old =
      let rest = expired_ids_complete challenges c among old in
      elim (Bool-cases (ltb_ℤ d.expires_at_micros now)) [
        | inl ends ↦ rw ends (ground arith)
        | inr stays ↦ rw stays rest
      ]

  -- An id of the list is that of a challenge that has ended.
  expired_ids_ended :
      (challenges : List AuthChallenge) (k : String)
      → is_one_of k (expired_ids now challenges) ≡ true
      → (c : AuthChallenge) × Among c challenges
        × (c.challenge_id ≡ k)
        × (ltb_ℤ c.expires_at_micros now ≡ true)
  unfolding expired_ids
  expired_ids_ended [] k h = cc
  expired_ids_ended (d ∷ challenges) k h = elim (Bool-cases (ltb_ℤ d.expires_at_micros now)) [
    | inl ends ↦ elim (Bool-cases (k == d.challenge_id)) [
      | inl same ↦ (d, inl refl, sym ((eq_iff k d.challenge_id).0 same), ends)
      | inr other ↦
          let old = rw ends at h in
          let (c, among, is, ended) = expired_ids_ended challenges k (ground arith) in
          (c, inr among, is, ended)
    ]
    | inr stays ↦
        let (c, among, is, ended) = expired_ids_ended challenges k (rw stays at h) in
        (c, inr among, is, ended)
  ]

module _ ⦃S : Store⦄ (now : ℤ) (t : S.Table AuthChallenge (λ row. row.challenge_id)) where
  is_expired :
      (k : String) (c : AuthChallenge)
      → S.find t k ≡ some c
      → is_one_of k (expired_ids now (S.iter t)) ≡ ltb_ℤ c.expires_at_micros now
  is_expired k c found =
      let at_key = S.find-key t k c found in
      let listed = (S.iter-find t c).1 (ap (S.find t) at_key ∙ found) in
      elim (Bool-cases (is_one_of k (expired_ids now (S.iter t)))) [
        | inl there ↦
            let (d, among, is, ended) = expired_ids_ended now (S.iter t) k there in
            let found_d : S.find t d.challenge_id ≡ some d = (S.iter-find t d).0 among in
            let found_k : S.find t k ≡ some d = ap (S.find t) (sym is) ∙ found_d in
            let same : d ≡ c = cc (found, found_k) in there ∙ sym (rw same at ended)
        | inr gone ↦ elim (Bool-cases (ltb_ℤ c.expires_at_micros now)) [
          | inl ends ↦
              let there = expired_ids_complete now (S.iter t) c listed ends in
              absurd (ground (arith, rw at_key at there))
          | inr stays ↦ gone ∙ sym stays
        ]
      ]

  find-delete_expired :
      (k : String) → S.find (delete_all (expired_ids now (S.iter t)) t) k ≡ live now (S.find t k)
  find-delete_expired k =
      let after = find-delete_all (expired_ids now (S.iter t)) t k in
      elim (Option-cases (S.find t k)) [
        | inl missing ↦ rw missing (ground (arith, after))
        | inr (c, present) ↦ rw present (ground (arith, after, is_expired k c present))
      ]

module _ ⦃S : Store⦄ where
  -- It ends well, and then a challenge is found exactly if it was there before and does not end before
  -- the time of the call; it is unchanged, and so are the other tables.
  pub delete_expired_challenges_effect :
      (ctx : Context) (db : Db)
      → (db' : Db) × (delete_expired_challenges ctx db ≡ ok db')
        × ((k : String)
            → S.find db'.auth_challenge k ≡ live (now_micros ctx) (S.find db.auth_challenge k))
        × (db' ≡ record db { auth_challenge = db'.auth_challenge })
  unfolding delete_expired_challenges
  delete_expired_challenges_effect ctx db =
      (_, refl, find-delete_expired (now_micros ctx) db.auth_challenge, refl)
