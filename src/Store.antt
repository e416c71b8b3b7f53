-- ===== src/Store.antt =====
-- The table interface of the SpacetimeDB SDK, which is not part of this repository: a parameter of
-- every reducer.
pub mod Tables
pub mod Assoc
pub mod Deleted
use cadet.Shared.{
  ◌≡◌, String, Option, none, some, Result, ok, panicked, ◌==◌, if◌then◌else◌, is_some, ◌↔◌, ◌⊎◌, ℕ,
  List, [], ◌∷◌, Among,
}
use cadet.Float.{Float}

pub record Store : Type 1 where
  -- The identity of a caller; the reducers only store it.
  pub Identity : Type 0
  pub f32 : Float
  pub f64 : Float
  -- `Table R key` holds rows of type `R`, whose primary key is `key`.
  pub Table : (R : Type 0) → (R → String) → Type 0
  -- `ctx.db.t().key().find(k)`
  pub find : {R : Type 0} {key : R → String} → Table R key → String → Option R
  -- `ctx.db.t().insert(row)`: it panics if the key is taken.
  pub insert : {R : Type 0} {key : R → String} → Table R key → R → Result (Table R key)
  -- `ctx.db.t().key().update(row)`: it panics if no row has the key.
  pub update : {R : Type 0} {key : R → String} → Table R key → R → Result (Table R key)
  -- `ctx.db.t().key().delete(k)`: it does nothing if no row has the key.
  pub delete : {R : Type 0} {key : R → String} → Table R key → String → Table R key
  -- `ctx.db.t().iter()`, in an order of the host's.
  pub iter : {R : Type 0} {key : R → String} → Table R key → List R
  -- A table without a primary key whose rows have an `#[auto_inc]` number.
  pub Log : Type 0 → Type 0
  pub Has : {R : Type 0} → Log R → R → Type 0
  -- `ctx.db.t().insert(row)` with 0 for the number: the host chooses the number.
  pub append : {R : Type 0} → Log R → (ℕ → R) → Log R
  pub find-key :
      {R : Type 0} {key : R → String} (t : Table R key) (k : String) (r : R)
      → find t k ≡ some r
      → key r ≡ k
  pub insert_taken :
      {R : Type 0} {key : R → String} (t : Table R key) (r old : R)
      → find t (key r) ≡ some old
      → insert t r ≡ panicked
  pub insert_new :
      {R : Type 0} {key : R → String} (t : Table R key) (r : R)
      → find t (key r) ≡ none
      → (u : Table R key) × (insert t r ≡ ok u)
  pub find-insert :
      {R : Type 0} {key : R → String} (t u : Table R key) (r : R)
      → insert t r ≡ ok u
      → (k : String) → find u k ≡ (if key r == k then some r else find t k)
  pub update_missing :
      {R : Type 0} {key : R → String} (t : Table R key) (r : R)
      → find t (key r) ≡ none
      → update t r ≡ panicked
  pub update_present :
      {R : Type 0} {key : R → String} (t : Table R key) (r old : R)
      → find t (key r) ≡ some old
      → (u : Table R key) × (update t r ≡ ok u)
  pub find-update :
      {R : Type 0} {key : R → String} (t u : Table R key) (r : R)
      → update t r ≡ ok u
      → (k : String) → find u k ≡ (if key r == k then some r else find t k)
  pub find-delete :
      {R : Type 0} {key : R → String} (t : Table R key) (j k : String)
      → find (delete t j) k ≡ (if j == k then none else find t k)
  pub iter-find :
      {R : Type 0} {key : R → String} (t : Table R key) (r : R)
      → Among r (iter t) ↔ (find t (key r) ≡ some r)
  pub has-append :
      {R : Type 0} (t : Log R) (row : ℕ → R)
      → (n : ℕ) × ((r : R) → Has (append t row) r ↔ (Has t r ⊎ (r ≡ row n)))

module _ ⦃S : Store⦄ {R : Type 0} {key : R → String} where
  -- `if t.find(key).is_some() { t.update(row) } else { t.insert(row) }`
  unfoldable pub upsert : S.Table R key → R → Result (S.Table R key)
  upsert t r = if is_some (S.find t (key r)) then S.update t r else S.insert t r

  -- `if let Some(row) = t.find(key) { t.delete(row.key) }`, by what was found.
  unfoldable pub delete_row : S.Table R key → Option R → S.Table R key
  delete_row t none = t
  delete_row t (some row) = S.delete t (key row)

  unfoldable pub delete_found : S.Table R key → String → S.Table R key
  unfolding delete_row
  delete_found t k = delete_row t (S.find t k)

  -- `for id in ids { t.delete(&id) }`
  unfoldable pub delete_all : List String → S.Table R key → S.Table R key
  delete_all [] t = t
  delete_all (id ∷ ids) t = delete_all ids (S.delete t id)
