-- ===== src/Hosts/Keypair/Lines.antt =====
-- How src/hosts/ssh-keypair.util.ts breaks the base64 of a key into lines.
use servers_manager.Base.{
  ℕ, zero, suc, ◌≤◌, ◌≡◌, refl, ap, ◌∙◌, List, [], ◌∷◌, ◌++◌, Text, All, length, take, drop, arith,
}
use servers_manager.Hosts.Keypair.{private_key_line_width, lines_of}

module _ {ℓ} {A : Type ℓ} where
  take-append-drop : (n : ℕ) (xs : List A) → take n xs ++ drop n xs ≡ xs
  take-append-drop zero xs = refl
  take-append-drop (suc n) [] = refl
  take-append-drop (suc n) (x ∷ xs) = ap (λ r. x ∷ r) (take-append-drop n xs)

  length-take-le : (n : ℕ) (xs : List A) → length (take n xs) ≤ n
  length-take-le zero xs = omega arith
  length-take-le (suc n) [] = omega arith
  length-take-le (suc n) (x ∷ xs) = omega (arith, length-take-le n xs)

  length-drop-le : (n : ℕ) (xs : List A) → length (drop n xs) ≤ length xs
  length-drop-le zero xs = omega arith
  length-drop-le (suc n) [] = omega arith
  length-drop-le (suc n) (x ∷ xs) = omega (arith, length-drop-le n xs)

-- The lines one behind the other.
abbrev pub joined : List Text → Text
joined [] = []
joined (line ∷ lines) = line ++ joined lines

lines_of-joined :
    (fuel : ℕ) (text : Text)
    → length text ≤ fuel
    → (joined (lines_of fuel text) ≡ text)
      × All (λ line. length line ≤ private_key_line_width) (lines_of fuel text)
unfolding lines_of
lines_of-joined zero [] h = (refl, tt)
lines_of-joined zero (c ∷ text) h = absurd (omega arith)
lines_of-joined (suc fuel) [] h = (refl, tt)
lines_of-joined (suc fuel) (c ∷ text) h =
    let rest : Text = drop private_key_line_width (c ∷ text) in
    let (whole, short) = lines_of-joined fuel rest (omega (arith, length-drop-le 69 text)) in
    (
      ap (λ r. take private_key_line_width (c ∷ text) ++ r) whole
          ∙ take-append-drop private_key_line_width (c ∷ text),
      (length-take-le private_key_line_width (c ∷ text), short),
    )

-- As many rounds as there are characters are enough: the lines, one behind the other, are the whole
-- text, and none is longer than 70 characters.
pub lines_of_total :
    (text : Text)
    → (joined (lines_of (length text) text) ≡ text)
      × All (λ line. length line ≤ 70) (lines_of (length text) text)
lines_of_total text = lines_of-joined (length text) text (omega arith)
