-- ===== src/Db/Table.antt =====
-- The operations of a repository on the rows of one table, with their laws.
use servers_manager.Base.{
  All, false, ◌≤◌, suc, ◌≡◌, refl, ap, Bool, true, none, some, List, [], ◌∷◌, length, find?, count,
  if◌then◌else◌, arith, Bool-cases, inl, inr,
}

module _ {ℓ} {A : Type ℓ} where
  -- `save` of a row that the table holds, and `update(where, …)`: every row that the test picks is
  -- written anew.
  unfoldable pub update_where : (A → Bool) → (A → A) → List A → List A
  update_where p f [] = []
  update_where p f (row ∷ rows) = (if p row then f row else row) ∷ update_where p f rows

  -- `remove`, and `delete`.
  unfoldable pub remove_where : (A → Bool) → List A → List A
  remove_where p [] = []
  remove_where p (row ∷ rows) = let rest = remove_where p rows in if p row then rest else row ∷ rest

  pub length-update_where :
      (p : A → Bool) (f : A → A) (rows : List A) → length (update_where p f rows) ≡ length rows
  unfolding update_where
  length-update_where p f [] = refl
  length-update_where p f (row ∷ rows) = ap suc (length-update_where p f rows)

  -- A write that leaves a second test alone on the rows that it changes leaves its count alone.
  pub count-update_where :
      (p q : A → Bool) (f : A → A) (rows : List A)
      → ((row : A) → p row ≡ true → q (f row) ≡ q row)
      → count q (update_where p f rows) ≡ count q rows
  unfolding update_where
  count-update_where p q f [] h = refl
  count-update_where p q f (row ∷ rows) h = elim (Bool-cases (p row)) [
    | inl e ↦ rw e (rw (h row e) (rw (count-update_where p q f rows h)))
    | inr e ↦ rw e (rw (count-update_where p q f rows h))
  ]

  -- Where no row is picked nothing is written.
  pub update_where-none :
      (p : A → Bool) (f : A → A) (rows : List A) → count p rows ≡ 0 → update_where p f rows ≡ rows
  unfolding update_where
  update_where-none p f [] h = refl
  update_where-none p f (row ∷ rows) h = elim (Bool-cases (p row)) [
    | inl e ↦ absurd (ground arith)
    | inr e ↦ rw e (ap (λ r. row ∷ r) (update_where-none p f rows (ground arith)))
  ]

  -- Of two writes of whole rows at one place the later one stands.
  pub update_where-twice :
      (p : A → Bool) (a b : A) (rows : List A)
      → p a ≡ true
      → update_where p (λ row. b) (update_where p (λ row. a) rows) ≡ update_where p (λ row. b) rows
  unfolding update_where
  update_where-twice p a b [] h = refl
  update_where-twice p a b (row ∷ rows) h = elim (Bool-cases (p row)) [
    | inl e ↦ rw e (rw h (ap (λ r. b ∷ r) (update_where-twice p a b rows h)))
    | inr e ↦ rw e (rw e (ap (λ r. row ∷ r) (update_where-twice p a b rows h)))
  ]

  pub find?-update_where :
      (p : A → Bool) (b old : A) (rows : List A)
      → p b ≡ true
      → find? p rows ≡ some old
      → find? p (update_where p (λ row. b) rows) ≡ some b
  unfolding update_where
  find?-update_where p b old [] h k = cc
  find?-update_where p b old (row ∷ rows) h k = elim (Bool-cases (p row)) [
    | inl e ↦ rw e (rw h)
    | inr e ↦ rw e (rw e (find?-update_where p b old rows h (rw e at k)))
  ]

  pub find?-sound :
      (p : A → Bool) (rows : List A) (row : A) → find? p rows ≡ some row → p row ≡ true
  find?-sound p [] row h = cc
  find?-sound p (r ∷ rows) row h = elim (Bool-cases (p r)) [
    | inl e ↦ let same : r ≡ row = ground arith in rw (← same) e
    | inr e ↦ find?-sound p rows row (rw e at h)
  ]

  pub find?-none : (p : A → Bool) (rows : List A) → find? p rows ≡ none → count p rows ≡ 0
  find?-none p [] h = refl
  find?-none p (r ∷ rows) h = ground (arith, find?-none p rows)

  pub count-find? : (p : A → Bool) (rows : List A) → count p rows ≡ 0 → find? p rows ≡ none
  count-find? p [] h = refl
  count-find? p (r ∷ rows) h = ground (arith, count-find? p rows)

  -- A write to the one row with a mark counts in every test as that row did.
  pub count-write :
      (p q : A → Bool) (b old : A) (rows : List A)
      → find? p rows ≡ some old
      → count p rows ≤ 1
      → q b ≡ q old
      → count q (update_where p (λ row. b) rows) ≡ count q rows
  unfolding update_where
  count-write p q b old [] found once same = refl
  count-write p q b old (row ∷ rows) found once same = elim (Bool-cases (p row)) [
    | inl e ↦
        let row_is : row ≡ old = ground arith in
        let rest : count p rows ≡ 0 = ground arith in
        rw e (rw (update_where-none p (λ r. b) rows rest) (rw (row_is, same)))
    | inr e ↦
        let ih = count-write p q b old rows (rw e at found) (rw e at once) same in rw e (rw ih)
  ]

  pub count-remove_where_le :
      (p q : A → Bool) (rows : List A) → count q (remove_where p rows) ≤ count q rows
  unfolding remove_where
  count-remove_where_le p q [] = omega arith
  count-remove_where_le p q (row ∷ rows) = ground (arith, count-remove_where_le p q rows)

  pub count-remove_where_self : (p : A → Bool) (rows : List A) → count p (remove_where p rows) ≡ 0
  unfolding remove_where
  count-remove_where_self p [] = refl
  count-remove_where_self p (row ∷ rows) = ground (arith, count-remove_where_self p rows)

  pub count-remove_where_other :
      (p q : A → Bool) (rows : List A)
      → ((row : A) → p row ≡ true → q row ≡ false)
      → count q (remove_where p rows) ≡ count q rows
  unfolding remove_where
  count-remove_where_other p q [] h = refl
  count-remove_where_other p q (row ∷ rows) h =
      ground (arith, h row, count-remove_where_other p q rows h)

  pub remove_where-none :
      (p : A → Bool) (rows : List A) → count p rows ≡ 0 → remove_where p rows ≡ rows
  unfolding remove_where
  remove_where-none p [] h = refl
  remove_where-none p (row ∷ rows) h = elim (Bool-cases (p row)) [
    | inl e ↦ absurd (ground arith)
    | inr e ↦ rw e (ap (λ r. row ∷ r) (remove_where-none p rows (ground arith)))
  ]

  pub All-remove_where {κ} :
      (P : A → Type κ) (p : A → Bool) (rows : List A) → All P rows → All P (remove_where p rows)
  unfolding remove_where
  All-remove_where P p [] h = tt
  All-remove_where P p (row ∷ rows) h = elim (Bool-cases (p row)) [
    | inl e ↦ rw e (All-remove_where P p rows h.1)
    | inr e ↦ rw e (h.0, All-remove_where P p rows h.1)
  ]

  pub All-update_where {κ} :
      (P : A → Type κ) (p : A → Bool) (f : A → A) (rows : List A)
      → ((row : A) → P row → p row ≡ true → P (f row))
      → All P rows
      → All P (update_where p f rows)
  unfolding update_where
  All-update_where P p f [] step h = tt
  All-update_where P p f (row ∷ rows) step h = elim (Bool-cases (p row)) [
    | inl e ↦ rw e (step row h.0 e, All-update_where P p f rows step h.1)
    | inr e ↦ rw e (h.0, All-update_where P p f rows step h.1)
  ]

  pub All-find? {κ} :
      (P : A → Type κ) (p : A → Bool) (rows : List A) (row : A)
      → All P rows
      → find? p rows ≡ some row
      → P row
  All-find? P p [] row h e = cc
  All-find? P p (r ∷ rows) row h e = elim (Bool-cases (p r)) [
    | inl k ↦ let same : r ≡ row = ground arith in rw (← same) h.0
    | inr k ↦ All-find? P p rows row h.1 (rw k at e)
  ]

  pub count-found :
      (p q : A → Bool) (rows : List A) (row : A)
      → find? q rows ≡ some row
      → p row ≡ true
      → 1 ≤ count p rows
  count-found p q [] row h k = cc
  count-found p q (r ∷ rows) row h k = elim (Bool-cases (q r)) [
    | inl e ↦ let same : r ≡ row = ground arith in rw same (rw k (omega arith))
    | inr e ↦ let rest = count-found p q rows row (rw e at h) k in ground (arith, rest)
  ]

  -- A row that one search finds is what a second one finds, if the second test holds of it only.
  pub find?-once :
      (p q : A → Bool) (rows : List A) (row : A)
      → find? q rows ≡ some row
      → p row ≡ true
      → count p rows ≤ 1
      → find? p rows ≡ some row
  find?-once p q [] row h k once = cc
  find?-once p q (r ∷ rows) row h k once = elim (Bool-cases (q r)) [
    | inl e ↦ let same : r ≡ row = ground arith in rw same (rw k)
    | inr e ↦
        let rest : find? q rows ≡ some row = rw e at h in
        let below = count-found p q rows row rest k in
        elim (Bool-cases (p r)) [
          | inl f ↦ absurd (ground arith)
          | inr f ↦ rw f (find?-once p q rows row rest k (rw f at once))
        ]
  ]
