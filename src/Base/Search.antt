-- ===== src/Base/Search.antt =====
-- What the searches in a text find.
use Prim.Native.Nat.{ℕ, zero, suc, ◌+◌, ◌≤◌}
use mathlib.Core.Path.{◌≡◌, refl, ap}
use mathlib.Core.Logic.{◌↔◌, inl, inr}
use mathlib.Core.Bool.{true, false, ◌||◌}
use mathlib.Core.List.{List, [], ◌∷◌, ◌++◌}
use mathlib.Core.Option.{none, some}
use native.Mathlib.Omega.{arith}
use servers_manager.Base.Tests.{==_refl, Bool-cases, Option-cases}
use servers_manager.Base.Lists.{length, drop, take, All}
use servers_manager.Base.Strings.{Text, Contains, Lacks, last_index_of, includes, starts_with}

pub last_index_of-none : (c : ℕ) (s : Text) → last_index_of c s ≡ none → Lacks c s
unfolding last_index_of
last_index_of-none c [] h = tt
last_index_of-none c (x ∷ s) h = elim (Option-cases (last_index_of c s)) [
  | inl e ↦ (ground arith, last_index_of-none c s e)
  | inr (i, e) ↦ absurd (ground arith)
]

pub last_index_of-some :
    (c : ℕ) (s : Text) (i : ℕ)
    → last_index_of c s ≡ some i
    → (s ≡ take i s ++ c ∷ drop (suc i) s) × Lacks c (drop (suc i) s)
unfolding last_index_of
last_index_of-some c [] i h = absurd (ground arith)
last_index_of-some c (x ∷ s) zero h = elim (Option-cases (last_index_of c s)) [
  | inl e ↦ (ground arith, last_index_of-none c s e)
  | inr (j, e) ↦ absurd (ground arith)
]
last_index_of-some c (x ∷ s) (suc i) h =
    let found : last_index_of c s ≡ some i = ground arith in
    let (cut, lacks) = last_index_of-some c s i found in (ap (λ r. x ∷ r) cut, lacks)

pub last_index_of-append-Lacks :
    (c : ℕ) (s t : Text) → Lacks c t → last_index_of c (s ++ t) ≡ last_index_of c s
unfolding last_index_of
last_index_of-append-Lacks c [] [] h = refl
last_index_of-append-Lacks c [] (x ∷ t) h =
    ground (arith, last_index_of-append-Lacks c [] t h.1, h.0)
last_index_of-append-Lacks c (x ∷ s) t h = rw (last_index_of-append-Lacks c s t h)

pub last_index_of-append :
    (c : ℕ) (s t : Text) → Lacks c t → last_index_of c (s ++ c ∷ t) ≡ some (length s)
unfolding last_index_of
last_index_of-append c [] t h = rw (last_index_of-append-Lacks c [] t h) (rw (==_refl c))
last_index_of-append c (x ∷ s) t h = rw (last_index_of-append c s t h)

pub last_index_of-lt : (c : ℕ) (s : Text) (i : ℕ) → last_index_of c s ≡ some i → suc i ≤ length s
unfolding last_index_of
last_index_of-lt c [] i h = absurd (ground arith)
last_index_of-lt c (x ∷ s) i h = elim (Option-cases (last_index_of c s)) [
  | inl e ↦ ground arith
  | inr (j, e) ↦ ground (arith, last_index_of-lt c s j e)
]

pub includes-Lacks : (c : ℕ) (s : Text) → includes s (c ∷ []) ≡ false → Lacks c s
unfolding includes
includes-Lacks c [] h = tt
includes-Lacks c (x ∷ s) h = (ground arith, includes-Lacks c s (ground arith))

pub Lacks-includes : (c : ℕ) (s : Text) → Lacks c s → includes s (c ∷ []) ≡ false
unfolding includes
Lacks-includes c [] h = refl
Lacks-includes c (x ∷ s) h = ground (arith, Lacks-includes c s h.1, h.0)

starts_with_sound : (s p : Text) → starts_with s p ≡ true → (after : Text) × (s ≡ p ++ after)
unfolding starts_with
starts_with_sound s [] h = (s, refl)
starts_with_sound [] (c ∷ p) h = cc
starts_with_sound (d ∷ s) (c ∷ p) h =
    let (after, e) = starts_with_sound s p (ground arith) in
    let first : d ≡ c = ground arith in (after, λ i. first i ∷ e i)

starts_with-append : (p t : Text) → starts_with (p ++ t) p ≡ true
unfolding starts_with
starts_with-append [] t = refl
starts_with-append (c ∷ p) t = rw (==_refl c) (starts_with-append p t)

pub includes_sound : (s p : Text) → includes s p ≡ true → Contains s p
unfolding includes
includes_sound [] p h = let (after, e) = starts_with_sound [] p h in ([], after, e)
includes_sound (c ∷ s) p h = elim (Bool-cases (starts_with (c ∷ s) p)) [
  | inl e ↦ let (after, cut) = starts_with_sound (c ∷ s) p e in ([], after, cut)
  | inr e ↦
      let (before, after, cut) = includes_sound s p (rw (e, ◌||◌) at h) in
      (c ∷ before, after, ap (λ r. c ∷ r) cut)
]

includes-append : (before p after : Text) → includes (before ++ p ++ after) p ≡ true
unfolding includes
includes-append [] [] [] = starts_with-append [] []
includes-append [] [] (c ∷ after) = rw (starts_with-append [] (c ∷ after))
includes-append [] (c ∷ p) after = rw (starts_with-append (c ∷ p) after)
includes-append (c ∷ before) p after = ground (arith, includes-append before p after)

-- The search of `includes` finds exactly the occurrences.
pub includes_iff : (s p : Text) → (includes s p ≡ true) ↔ Contains s p
includes_iff s p = (includes_sound s p, λ (before, after, e). rw e (includes-append before p after))

module _ {ℓ} {A : Type ℓ} where
  pub take-add : (m n : ℕ) (xs : List A) → take (m + n) xs ≡ take m xs ++ take n (drop m xs)
  take-add zero n xs = ap (λ k. take k xs) (omega arith)
  take-add (suc m) n [] = rw (add_suc m n) (take-nil n)
    where
      add_suc : (a b : ℕ) → suc a + b ≡ suc (a + b)
      add_suc a b = omega arith

      take-nil : (k : ℕ) → [] ≡ take {A = A} k []
      take-nil zero = refl
      take-nil (suc k) = refl
  take-add (suc m) n (x ∷ xs) =
      let e : suc m + n ≡ suc (m + n) = omega arith in rw e (ap (λ r. x ∷ r) (take-add m n xs))

  pub drop-add : (m n : ℕ) (xs : List A) → drop (m + n) xs ≡ drop n (drop m xs)
  drop-add zero n xs = ap (λ k. drop k xs) (omega arith)
  drop-add (suc m) n [] = rw (add_suc m n) (drop-nil n)
    where
      add_suc : (a b : ℕ) → suc a + b ≡ suc (a + b)
      add_suc a b = omega arith

      drop-nil : (k : ℕ) → [] ≡ drop {A = A} k []
      drop-nil zero = refl
      drop-nil (suc k) = refl
  drop-add (suc m) n (x ∷ xs) =
      let e : suc m + n ≡ suc (m + n) = omega arith in rw e (drop-add m n xs)

  pub take-append-drop : (n : ℕ) (xs : List A) → take n xs ++ drop n xs ≡ xs
  take-append-drop zero xs = refl
  take-append-drop (suc n) [] = refl
  take-append-drop (suc n) (x ∷ xs) = ap (λ r. x ∷ r) (take-append-drop n xs)

  pub All-drop {κ} : (P : A → Type κ) (n : ℕ) (xs : List A) → All P xs → All P (drop n xs)
  All-drop P zero xs h = h
  All-drop P (suc n) [] h = tt
  All-drop P (suc n) (x ∷ xs) h = All-drop P n xs h.1

  pub All-append {κ} : (P : A → Type κ) (xs ys : List A) → All P xs → All P ys → All P (xs ++ ys)
  All-append P [] ys h k = k
  All-append P (x ∷ xs) ys h k = (h.0, All-append P xs ys h.1 k)

  pub drop-append : (n : ℕ) (xs ys : List A) → n ≤ length xs → drop n (xs ++ ys) ≡ drop n xs ++ ys
  drop-append zero xs ys h = refl
  drop-append (suc n) [] ys h = absurd (omega arith)
  drop-append (suc n) (x ∷ xs) ys h = drop-append n xs ys (omega arith)

  pub length-drop : (n : ℕ) (xs : List A) → n ≤ length xs → n + length (drop n xs) ≡ length xs
  length-drop zero xs h = omega arith
  length-drop (suc n) [] h = absurd (omega arith)
  length-drop (suc n) (x ∷ xs) h = omega (arith, length-drop n xs)
