-- ===== src/Store/Tables.antt =====
-- What a write does to a table, and two properties of tables that writes keep.
use cadet.Shared.{
  ◌≡◌, String, some, none, ok, ◌==◌, eq_iff, eq_refl, arith, if◌then◌else◌, is_some, or_err,
  or_err-eq-ok, refuse_if, not, Bool-cases, Option-cases, inl, inr, ◌≢◌,
}
use cadet.Store.{Store, upsert}

module _ ⦃S : Store⦄ {R : Type 0} {key : R → String} where
  -- `u` is `t` with the row `r` under its key.
  pub record Wrote (t : S.Table R key) (r : R) (u : S.Table R key) : Type 0 where
    pub finds : (k : String) → S.find u k ≡ (if key r == k then some r else S.find t k)

  -- Every row of `t` has the property `P`.
  pub record All (P : R → Type 0) (t : S.Table R key) : Type 0 where
    pub at : (k : String) (r : R) → S.find t k ≡ some r → P r

  pub record Present (t : S.Table R key) (k : String) : Type 0 where
    pub row : R
    pub found : S.find t k ≡ some row

  -- Rows are changed and added, and not removed.
  pub record Grows (t u : S.Table R key) : Type 0 where
    pub keeps : (k : String) → Present t k → Present u k

  pub insert-Wrote : {t u : S.Table R key} {r : R} → S.insert t r ≡ ok u → Wrote t r u
  insert-Wrote {t} {u} {r} e = record { finds = S.find-insert t u r e }

  -- An insert that ends well found its key free.
  pub insert_new_only :
      {t u : S.Table R key} {r : R} → S.insert t r ≡ ok u → S.find t (key r) ≡ none
  insert_new_only {t} {u} {r} e = elim (Option-cases (S.find t (key r))) [
    | inl free ↦ free
    | inr (old, taken) ↦ absurd (cc (S.insert_taken t r old taken, e))
  ]

  pub update-Wrote : {t u : S.Table R key} {r : R} → S.update t r ≡ ok u → Wrote t r u
  update-Wrote {t} {u} {r} e = record { finds = S.find-update t u r e }

  pub upsert-Wrote : {t u : S.Table R key} {r : R} → upsert t r ≡ ok u → Wrote t r u
  unfolding upsert
  upsert-Wrote {t} {u} {r} e = elim (Option-cases (S.find t (key r))) [
    | inl missing ↦ insert-Wrote (rw missing at e)
    | inr (old, present) ↦ update-Wrote (rw present at e)
  ]

  -- An upsert ends well whatever the table holds.
  pub upsert_total : (t : S.Table R key) (r : R) → (u : S.Table R key) × (upsert t r ≡ ok u)
  unfolding upsert
  upsert_total t r = elim (Option-cases (S.find t (key r))) [
    | inl missing ↦ rw missing (S.insert_new t r missing)
    | inr (old, present) ↦ rw present (S.update_present t r old present)
  ]

  -- A row that was found may be written back, changed or not.
  pub update_found :
      (t : S.Table R key) (r old : R) {k : String}
      → S.find t k ≡ some old
      → key r ≡ key old
      → (u : S.Table R key) × (S.update t r ≡ ok u)
  update_found t r old {k} e same =
      let at_key : S.find t (key r) ≡ some old = rw (same, S.find-key t k old e) e in
      S.update_present t r old at_key

  pub find-Wrote_self : {t u : S.Table R key} {r : R} → Wrote t r u → S.find u (key r) ≡ some r
  find-Wrote_self {r} w = ground (arith, w.finds (key r), eq_refl (key r))

  pub find-Wrote_ne :
      {t u : S.Table R key} {r : R} (k : String) → Wrote t r u → key r ≢ k → S.find u k ≡ S.find t k
  find-Wrote_ne {r} k w h = ground (arith, w.finds k, eq_iff (key r) k)

  pub Wrote-All :
      {P : R → Type 0} {t u : S.Table R key} {r : R} → Wrote t r u → All P t → P r → All P u
  Wrote-All {P} {t} {u} {r} w a p = record {
    at = λ k s e. elim (Bool-cases (key r == k)) [
      | inl same ↦ let q : r ≡ s = ground (arith, w.finds k) in rw (← q) p
      | inr other ↦ a.at k s (ground (arith, w.finds k))
    ];
  }

  pub Wrote-Grows : {t u : S.Table R key} {r : R} → Wrote t r u → Grows t u
  Wrote-Grows {t} {u} {r} w = record {
    keeps = λ k p. elim (Bool-cases (key r == k)) [
      | inl same ↦ record { row = r; found = ground (arith, w.finds k) }
      | inr other ↦ record { row = p.row; found = ground (arith, w.finds k, p.found) }
    ];
  }

  pub Wrote-Present : {t u : S.Table R key} {r : R} → Wrote t r u → Present u (key r)
  Wrote-Present {r} w = record { row = r; found = find-Wrote_self w }

  pub Present-found : {t : S.Table R key} {k : String} {r : R} → S.find t k ≡ some r → Present t k
  Present-found {r} e = record { row = r; found = e }

  pub Present-or_err :
      {t : S.Table R key} {k : String} {r : R} (message : String)
      → or_err (S.find t k) message ≡ ok r
      → Present t k
  Present-or_err {t} {k} message e = Present-found (or_err-eq-ok (S.find t k) message e)

  -- What `if t.find(k).is_none() { return Err(message) }` lets pass.
  pub Present-refuse_if :
      {t : S.Table R key} {k : String} {u : Unit {0}} (message : String)
      → refuse_if (not (is_some (S.find t k))) message ≡ ok u
      → Present t k
  Present-refuse_if {t} {k} message e = elim (Option-cases (S.find t k)) [
    | inl missing ↦ absurd (ground arith)
    | inr (r, present) ↦ Present-found present
  ]

  pub Grows-refl : {t : S.Table R key} → Grows t t
  Grows-refl = record { keeps = λ k p. p }

  pub Grows-trans : {t u v : S.Table R key} → Grows t u → Grows u v → Grows t v
  Grows-trans g h = record { keeps = λ k p. h.keeps k (g.keeps k p) }

  pub All-map : {P Q : R → Type 0} {t : S.Table R key} → ((r : R) → P r → Q r) → All P t → All Q t
  All-map f a = record { at = λ k r e. f r (a.at k r e) }
