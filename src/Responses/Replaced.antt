-- ===== src/Responses/Replaced.antt =====
-- Queries of a table whose rows are replaced by ones that the query and the answer do not tell from
-- them.
use servers_manager.Base.{
  ℕ, ◌≡◌, refl, ap, ◌∙◌, Bool, Option, none, some, List, [], ◌∷◌, map, ltb, find?, filter, any,
  length, suc, Bool-cases, inl, inr,
}
use servers_manager.Db.Query.{insert_newest, newest_onto, newest_first}

module _ {A : Type 0} (f : A → A) (date : A → ℕ) (dated : (a : A) → date (f a) ≡ date a) where
  map-insert_newest :
      (row : A) (rows : List A)
      → insert_newest date (f row) (map f rows) ≡ map f (insert_newest date row rows)
  unfolding insert_newest
  map-insert_newest row [] = refl
  map-insert_newest row (r ∷ rows) = rw (dated row) (
      rw (dated r) (elim (Bool-cases (ltb (date row) (date r))) [
        | inl e ↦ rw e (rw (map-insert_newest row rows))
        | inr e ↦ rw e
      ]))

  map-newest_onto :
      (rows done : List A)
      → newest_onto date (map f rows) (map f done) ≡ map f (newest_onto date rows done)
  unfolding newest_onto
  map-newest_onto [] done = refl
  map-newest_onto (row ∷ rows) done =
      ap (newest_onto date (map f rows)) (map-insert_newest row done)
      ∙ map-newest_onto rows (insert_newest date row done)

  pub map-filter :
      (p : A → Bool) (rows : List A)
      → ((a : A) → p (f a) ≡ p a)
      → filter p (map f rows) ≡ map f (filter p rows)
  map-filter p [] same = refl
  map-filter p (row ∷ rows) same =
      rw (same row)
        (rw (map-filter p rows same) (elim (Bool-cases (p row)) [ inl e ↦ rw e | inr e ↦ rw e ]))

  map-absorbed :
      {B : Type 0} (g : A → B) (rows : List A)
      → ((a : A) → g (f a) ≡ g a)
      → map g (map f rows) ≡ map g rows
  map-absorbed g [] same = refl
  map-absorbed g (row ∷ rows) same = rw (same row) (rw (map-absorbed g rows same))

  pub listed :
      {B : Type 0} (p : A → Bool) (g : A → B) (rows : List A)
      → ((a : A) → p (f a) ≡ p a)
      → ((a : A) → g (f a) ≡ g a)
      → map g (newest_first date (filter p (map f rows)))
        ≡ map g (newest_first date (filter p rows))
  unfolding newest_first
  listed p g rows kept shown = rw (map-filter p rows kept) (
      rw (map-newest_onto (filter p rows) [])
        (map-absorbed g (newest_onto date (filter p rows) []) shown))

  abbrev pub image : Option A → Option A
  image none = none
  image (some a) = some (f a)

  pub map-find? :
      (p : A → Bool) (rows : List A)
      → ((a : A) → p (f a) ≡ p a)
      → find? p (map f rows) ≡ image (find? p rows)
  map-find? p [] same = refl
  map-find? p (row ∷ rows) same =
      rw (same row)
        (rw (map-find? p rows same) (elim (Bool-cases (p row)) [ inl e ↦ rw e | inr e ↦ rw e ]))

  -- A list that two tests in turn are made of, as it is shown, and its length.
  pub filtered :
      {B : Type 0} (p q : A → Bool) (g : A → B) (rows : List A)
      → ((a : A) → p (f a) ≡ p a)
      → ((a : A) → q (f a) ≡ q a)
      → ((a : A) → g (f a) ≡ g a)
      → map g (filter q (filter p (map f rows))) ≡ map g (filter q (filter p rows))
  filtered p q g rows kept picked shown =
      rw (map-filter p rows kept)
        (rw (map-filter q (filter p rows) picked) (map-absorbed g (filter q (filter p rows)) shown))

  pub length-replaced : (rows : List A) → length (map f rows) ≡ length rows
  length-replaced [] = refl
  length-replaced (row ∷ rows) = ap suc (length-replaced rows)

  pub length-filtered :
      (p q : A → Bool) (rows : List A)
      → ((a : A) → p (f a) ≡ p a)
      → ((a : A) → q (f a) ≡ q a)
      → length (filter q (filter p (map f rows))) ≡ length (filter q (filter p rows))
  length-filtered p q rows kept picked =
      rw (map-filter p rows kept)
        (rw (map-filter q (filter p rows) picked) (length-replaced (filter q (filter p rows))))

  pub any-replaced :
      (p : A → Bool) (rows : List A) → ((a : A) → p (f a) ≡ p a) → any p (map f rows) ≡ any p rows
  any-replaced p [] same = refl
  any-replaced p (row ∷ rows) same = rw (same row) (rw (any-replaced p rows same) refl)
