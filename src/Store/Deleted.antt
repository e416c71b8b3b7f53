-- ===== src/Store/Deleted.antt =====
-- Tables under deletions.
use cadet.Shared.{
  List, [], ◌∷◌, refl, String, ◌≡◌, none, ◌==◌, eq_iff, arith, if◌then◌else◌, Option-cases, inl,
  inr,
}
use cadet.Store.{Store, delete_row, delete_found, delete_all}
use cadet.Store.Tables.{All}
use cadet.Text.Choice.{is_one_of}

module _ ⦃S : Store⦄ {R : Type 0} {key : R → String} where
  pub delete-All :
      {P : R → Type 0} {t : S.Table R key} (k : String) → All P t → All P (S.delete t k)
  delete-All {t} k a = record { at = λ j r e. a.at j r (ground (arith, S.find-delete t k j)) }

  -- It deletes under the key, whether it has found a row or not.
  pub find-delete_found :
      (t : S.Table R key) (j k : String)
      → S.find (delete_found t j) k ≡ (if j == k then none else S.find t k)
  unfolding delete_found delete_row
  find-delete_found t j k = elim (Option-cases (S.find t j)) [
    | inl missing ↦ rw missing (ground (arith, eq_iff j k))
    | inr (r, present) ↦
        let at_key = S.find-key t j r present in
        rw (present, delete_row, at_key) (S.find-delete t j k)
  ]

  pub delete_found-All :
      {P : R → Type 0} {t : S.Table R key} (k : String) → All P t → All P (delete_found t k)
  delete_found-All {t} k a = record {
    at = λ j r e. a.at j r (ground (arith, find-delete_found t k j));
  }

  pub find-delete_all :
      (ids : List String) (t : S.Table R key) (k : String)
      → S.find (delete_all ids t) k ≡ (if is_one_of k ids then none else S.find t k)
  unfolding delete_all
  find-delete_all [] t k = refl
  find-delete_all (id ∷ ids) t k =
      ground (
        arith,
        find-delete_all ids (S.delete t id) k,
        S.find-delete t id k,
        eq_iff id k,
        eq_iff k id,
      )
