-- ===== src/Db/Ids.antt =====
-- Ids that a table draws one after another: a row that is added has one that no row had.
use servers_manager.Base.{
  ℕ, ◌≤◌, ◌<◌, ◌≡◌, refl, List, [], ◌∷◌, ◌++◌, All, count, count-append, ◌==◌, ==_iff, arith,
  Bool-cases, inl, inr,
}

module _ {A : Type 0} (id_of : A → ℕ) where
  pub fresh-count :
      (rows : List A) (n : ℕ)
      → All (λ row. id_of row < n) rows
      → count (λ row. id_of row == n) rows ≡ 0
  fresh-count [] n h = refl
  fresh-count (row ∷ rows) n h = ground (arith, fresh-count rows n h.1)

  pub fresh_later :
      (rows : List A) (n m : ℕ)
      → n ≤ m
      → All (λ row. id_of row < n) rows
      → All (λ row. id_of row < m) rows
  fresh_later [] n m le h = tt
  fresh_later (row ∷ rows) n m le h = (omega arith, fresh_later rows n m le h.1)

  pub fresh-append :
      (rows : List A) (row : A) (n m : ℕ)
      → n ≤ m
      → id_of row < m
      → All (λ r. id_of r < n) rows
      → All (λ r. id_of r < m) (rows ++ row ∷ [])
  fresh-append [] row n m le lt h = (lt, tt)
  fresh-append (r ∷ rows) row n m le lt h = (omega arith, fresh-append rows row n m le lt h.1)

  pub distinct-append :
      (rows : List A) (row : A) (n id : ℕ)
      → n ≤ id_of row
      → All (λ r. id_of r < n) rows
      → count (λ r. id_of r == id) rows ≤ 1
      → count (λ r. id_of r == id) (rows ++ row ∷ []) ≤ 1
  distinct-append rows row n id le fresh once =
      let new : count (λ r. id_of r == id_of row) rows ≡ 0 =
        fresh-count rows (id_of row) (fresh_later rows n (id_of row) le fresh) in
      rw count-append (elim (Bool-cases (id_of row == id)) [
        | inl e ↦
            let same : id_of row ≡ id = (==_iff (id_of row) id).0 e in
            let none_there = rw same at new in rw e (omega arith)
        | inr e ↦ rw e (omega arith)
      ])
