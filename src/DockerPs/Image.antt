-- ===== src/DockerPs/Image.antt =====
-- What `splitImageAndTag` of src/services/docker-ps-parser.ts promises.
use servers_manager.Base.{
  ℕ, suc, ◌+◌, ◌≡◌, ◌≢◌, ◌≤◌, ap, sym, refl, ◌∙◌, true, false, Option, none, some, [], ◌∷◌, ◌++◌,
  Text, Lacks, truthy, last_index_of, includes, take, drop, length, arith, Bool-cases, Option-cases,
  inl, inr, codes, take-length-append, drop-length-append, append_assoc,
}
use servers_manager.Base.Search.{
  last_index_of-none, last_index_of-some, last_index_of-append, last_index_of-append-Lacks,
  last_index_of-lt, includes-Lacks, Lacks-includes, take-add, drop-add, take-append-drop, All-drop,
  All-append, drop-append, length-drop,
}
use servers_manager.DockerPs.{after, cut_tag, split_image_and_tag}

-- No tag: the reference is kept whole. A tag: it stands behind the `:` that ends the image, and
-- the reference is no digest.
abbrev pub IsSplitOf : Text → Text → Option Text → Type 0
IsSplitOf raw image none = image ≡ raw
IsSplitOf raw image (some tag) =
    (raw ≡ image ++ b':' ∷ tag) × Lacks b'/' tag × Lacks b':' tag × Lacks b'@' raw

after_slash-Lacks : (s : Text) → Lacks b'/' (drop (after (last_index_of b'/' s)) s)
after_slash-Lacks s = elim (Option-cases (last_index_of b'/' s)) [
  | inl e ↦ rw e (last_index_of-none b'/' s e)
  | inr (i, e) ↦ rw e (last_index_of-some b'/' s i e).1
]

after-le : (s : Text) → after (last_index_of b'/' s) ≤ length s
after-le s = elim (Option-cases (last_index_of b'/' s)) [
  | inl e ↦ rw e (omega arith)
  | inr (i, e) ↦ rw e (last_index_of-lt b'/' s i e)
]

cut_tag-IsSplitOf :
    (raw : Text) (start : ℕ) (colon : Option ℕ)
    → Lacks b'/' (drop start raw)
    → Lacks b'@' raw
    → last_index_of b':' (drop start raw) ≡ colon
    → IsSplitOf raw (cut_tag raw start colon).image (cut_tag raw start colon).tag
cut_tag-IsSplitOf raw start none no_slash no_at e = refl
cut_tag-IsSplitOf raw start (some colon) no_slash no_at e =
    let (cut, no_colon) = last_index_of-some b':' (drop start raw) colon e in
    let behind : drop (start + colon + 1) raw ≡ drop (suc colon) (drop start raw) =
      ap (λ k. drop k raw) (omega arith) ∙ drop-add start (suc colon) raw in
    let whole : raw ≡ take (start + colon) raw ++ b':' ∷ drop (start + colon + 1) raw =
      sym (take-append-drop start raw)
      ∙ ap (λ s. take start raw ++ s) cut
      ∙ sym (append_assoc (take start raw) (take colon (drop start raw)) _)
      ∙ ap (λ s. s ++ b':' ∷ drop (suc colon) (drop start raw)) (sym (take-add start colon raw))
      ∙ ap (λ s. take (start + colon) raw ++ b':' ∷ s) (sym behind) in
    (
      whole,
      rw behind (All-drop (λ x. x ≢ b'/') (suc colon) (drop start raw) no_slash),
      rw behind no_colon,
      no_at,
    )

-- Every image reference is split without loss: with no tag it is kept whole; with a tag it is the
-- image, a colon and the tag, where the tag holds no slash and no colon (so a registry's port is
-- never taken for one) and the reference is no digest.
pub split_image_and_tag-IsSplitOf :
    (raw : Text) → IsSplitOf raw (split_image_and_tag raw).image (split_image_and_tag raw).tag
unfolding split_image_and_tag
split_image_and_tag-IsSplitOf [] = refl
split_image_and_tag-IsSplitOf (c ∷ s) = elim (Bool-cases (includes (c ∷ s) (codes "@"))) [
  | inl e ↦ rw e refl
  | inr e ↦ rw e (
      cut_tag-IsSplitOf (c ∷ s) (after (last_index_of b'/' (c ∷ s))) _ (after_slash-Lacks (c ∷ s))
        (includes-Lacks b'@' (c ∷ s) e) refl)
]

truthy-append : (s : Text) (c : ℕ) (t : Text) → truthy (s ++ c ∷ t) ≡ true
truthy-append [] c t = refl
truthy-append (d ∷ s) c t = refl

-- An image whose reference is no digest, with a colon and a tag free of `/`, `:` and `@` behind it,
-- is taken apart into that image and that tag, whatever colons and slashes the image holds.
pub split_image_and_tag-tagged :
    (image tag : Text)
    → Lacks b'@' image
    → Lacks b'/' tag
    → Lacks b':' tag
    → Lacks b'@' tag
    → split_image_and_tag (image ++ b':' ∷ tag) ≡ record { image = image; tag = some tag }
unfolding split_image_and_tag
split_image_and_tag-tagged image tag i_at t_slash t_colon t_at =
    let raw = image ++ b':' ∷ tag in
    let start = after (last_index_of b'/' image) in
    let rest = drop start image in
    let no_at : includes raw (codes "@") ≡ false =
      Lacks-includes b'@' raw
        (All-append (λ x. x ≢ b'@') image (b':' ∷ tag) i_at (omega arith, t_at)) in
    let slash : last_index_of b'/' raw ≡ last_index_of b'/' image =
      last_index_of-append-Lacks b'/' image (b':' ∷ tag) (omega arith, t_slash) in
    let segment : drop start raw ≡ rest ++ b':' ∷ tag =
      drop-append start image (b':' ∷ tag) (after-le image) in
    let colon : last_index_of b':' (rest ++ b':' ∷ tag) ≡ some (length rest) =
      last_index_of-append b':' rest tag t_colon in
    let size : start + length rest ≡ length image = length-drop start image (after-le image) in
    let front : take (start + length rest) raw ≡ image =
      ap (λ k. take k raw) size ∙ take-length-append image (b':' ∷ tag) in
    let back : drop (start + length rest + 1) raw ≡ tag =
      ap (λ k. drop (k + 1) raw) size
      ∙ drop-add (length image) 1 raw
      ∙ ap (λ s. drop 1 s) (drop-length-append image (b':' ∷ tag)) in
    rw (truthy-append image b':' tag) (
      rw no_at
        (rw slash (rw segment (rw colon (λ i. record { image = front i; tag = some (back i) })))))
