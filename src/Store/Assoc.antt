-- ===== src/Store/Assoc.antt =====
-- A concrete table interface, over association lists, for concrete runs of the reducers.
use cadet.Shared.{
  ◌≡◌, String, ℕ, suc, Option, none, some, Result, ok, panicked, ◌==◌, eq_iff, arith, if◌then◌else◌,
  is_some, List, [], ◌∷◌, ◌↔◌, ◌⊎◌, inl, inr, Among, refl, ap, Bool-cases, false, eq_refl,
}
use cadet.Store.{Store}
use cadet.Float.Hundredths.{hundredths}

abbrev length {ℓ} : {A : Type ℓ} → List A → ℕ
length [] = 0
length (x ∷ xs) = suc (length xs)

module _ {R : Type 0} (key : R → String) where
  abbrev find : List R → String → Option R
  find [] k = none
  find (r ∷ rs) k = if key r == k then some r else find rs k

  abbrev insert : List R → R → Result (List R)
  insert t r = if is_some (find t (key r)) then panicked else ok (r ∷ t)

  -- The newest row of a key is the one that is found.
  abbrev update : List R → R → Result (List R)
  update t r = if is_some (find t (key r)) then ok (r ∷ t) else panicked

  abbrev remove : String → List R → List R
  remove k [] = []
  remove k (r ∷ rs) = if key r == k then remove k rs else r ∷ remove k rs

  -- The rows that are found.
  abbrev iter : List R → List R
  iter [] = []
  iter (r ∷ rs) = r ∷ remove (key r) (iter rs)

  pub find_key_lem : (t : List R) (k : String) (r : R) → find t k ≡ some r → key r ≡ k
  find_key_lem [] k r e = cc
  find_key_lem (s ∷ t) k r e = ground (arith, eq_iff (key s) k, find_key_lem t k r)

  pub insert_taken_lem :
      (t : List R) (r old : R) → find t (key r) ≡ some old → insert t r ≡ panicked
  insert_taken_lem t r old e = rw e

  pub insert_new_lem :
      (t : List R) (r : R) → find t (key r) ≡ none → (u : List R) × (insert t r ≡ ok u)
  insert_new_lem t r e = (r ∷ t, rw e)

  pub find-insert_lem :
      (t u : List R) (r : R)
      → insert t r ≡ ok u
      → (k : String) → find u k ≡ (if key r == k then some r else find t k)
  find-insert_lem t u r e k = ground arith

  pub update_missing_lem : (t : List R) (r : R) → find t (key r) ≡ none → update t r ≡ panicked
  update_missing_lem t r e = rw e

  pub update_present_lem :
      (t : List R) (r old : R) → find t (key r) ≡ some old → (u : List R) × (update t r ≡ ok u)
  update_present_lem t r old e = (r ∷ t, rw e)

  pub find-update_lem :
      (t u : List R) (r : R)
      → update t r ≡ ok u
      → (k : String) → find u k ≡ (if key r == k then some r else find t k)
  find-update_lem t u r e k = ground arith

  pub find-remove_lem :
      (t : List R) (j k : String) → find (remove j t) k ≡ (if j == k then none else find t k)
  find-remove_lem [] j k = ground arith
  find-remove_lem (r ∷ t) j k =
      ground (arith, find-remove_lem t j k, eq_iff (key r) j, eq_iff (key r) k, eq_iff j k)

  Among-remove :
      (t : List R) (j : String) (r : R)
      → Among r (remove j t) ↔ (Among r t × ((key r == j) ≡ false))
  Among-remove [] j r = (λ h. absurd h, λ h. absurd h.0)
  Among-remove (s ∷ t) j r =
      let ih = Among-remove t j r in
      elim (Bool-cases (key s == j)) [
        | inl gone ↦ rw gone (
          λ h. let (there, other) = ih.0 h in (inr there, other),
          λ (there, other). elim there [
            | inl is ↦ absurd (ground (arith, ap key is))
            | inr old ↦ ih.1 (old, other)
          ],
        )
        | inr kept ↦ rw kept (
          λ h. elim h [
            | inl is ↦ (inl is, rw is kept)
            | inr old ↦ let (there, other) = ih.0 old in (inr there, other)
          ],
          λ (there, other). elim there [ inl is ↦ inl is | inr old ↦ inr (ih.1 (old, other)) ],
        )
      ]

  pub iter-find_lem : (t : List R) (r : R) → Among r (iter t) ↔ (find t (key r) ≡ some r)
  iter-find_lem [] r = (λ h. absurd h, λ h. cc)
  iter-find_lem (s ∷ t) r =
      let ih = iter-find_lem t r in
      let rest = Among-remove (iter t) (key s) r in
      (
        λ h. elim h [
          | inl is ↦ rw (is, eq_refl (key s)) refl
          | inr old ↦
              let (there, other) = rest.0 old in
              ground (arith, ih.0 there, eq_iff (key s) (key r), eq_iff (key r) (key s))
        ],
        λ h. elim (Bool-cases (key s == key r)) [
          | inl same ↦ inl (ground arith)
          | inr other ↦ inr (
              rest.1 (
                ih.1 (ground arith),
                ground (arith, eq_iff (key s) (key r), eq_iff (key r) (key s)),
              ))
        ],
      )

pub Among-cons_iff :
    {R : Type 0} (t : List R) (row : ℕ → R) (r : R)
    → Among r (row (length t) ∷ t) ↔ (Among r t ⊎ (r ≡ row (length t)))
Among-cons_iff t row r = (
  λ h. elim h [ inl new ↦ inr new | inr old ↦ inl old ],
  λ h. elim h [ inl old ↦ inr old | inr new ↦ inl new ],
)

-- Callers are numbers.
abbrev pub assoc_store : Store
assoc_store = record {
  Identity = ℕ;
  f32 = hundredths;
  f64 = hundredths;
  Table = λ R key. List R;
  find = λ {R} {key} t k. find key t k;
  insert = λ {R} {key} t r. insert key t r;
  update = λ {R} {key} t r. update key t r;
  delete = λ {R} {key} t k. remove key k t;
  iter = λ {R} {key} t. iter key t;
  Log = λ R. List R;
  Has = λ {R} t r. Among r t;
  append = λ {R} t row. row (length t) ∷ t;
  find-key = λ {R} {key} t k r e. find_key_lem key t k r e;
  insert_taken = λ {R} {key} t r old e. insert_taken_lem key t r old e;
  insert_new = λ {R} {key} t r e. insert_new_lem key t r e;
  find-insert = λ {R} {key} t u r e. find-insert_lem key t u r e;
  update_missing = λ {R} {key} t r e. update_missing_lem key t r e;
  update_present = λ {R} {key} t r old e. update_present_lem key t r old e;
  find-update = λ {R} {key} t u r e. find-update_lem key t u r e;
  find-delete = λ {R} {key} t j k. find-remove_lem key t j k;
  iter-find = λ {R} {key} t r. iter-find_lem key t r;
  has-append = λ {R} t row. (length t, Among-cons_iff t row);
}
