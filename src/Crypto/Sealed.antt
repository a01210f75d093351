-- ===== src/Crypto/Sealed.antt =====
-- What src/crypto/crypto.service.ts seals it can open.
use servers_manager.Base.{
  ℕ, ◌≡◌, ap, ◌∙◌, sym, List, ◌++◌, Text, take, drop, length, take-length-append,
  drop-length-append, Throws, ok, ◌>>=◌,
}
use servers_manager.Base.Search.{drop-add}
use servers_manager.Crypto.{
  Bytes, Encrypted, NodeCrypto, iv_length_bytes, auth_tag_length_bytes, encrypt, decrypt,
}

take-of {ℓ} : {A : Type ℓ} (n : ℕ) (xs ys : List A) → length xs ≡ n → take n (xs ++ ys) ≡ xs
take-of n xs ys h = ap (λ k. take k (xs ++ ys)) (sym h) ∙ take-length-append xs ys

drop-of {ℓ} : {A : Type ℓ} (n : ℕ) (xs ys : List A) → length xs ≡ n → drop n (xs ++ ys) ≡ ys
drop-of n xs ys h = ap (λ k. drop k (xs ++ ys)) (sym h) ∙ drop-length-append xs ys

-- What `encrypt` seals `decrypt` opens under the same key, for a text that UTF-8 gives back and an
-- initialisation vector of 12 bytes, if the cipher makes tags of 16 bytes, base64 gives back what it
-- was given, and the decipher undoes the cipher under the same key, vector and tag.
pub decrypt-encrypt :
    (node : NodeCrypto) (key iv : Bytes) (plaintext : Text)
    → length iv ≡ iv_length_bytes
    → length (node.cipher key iv (node.utf8 plaintext)).auth_tag ≡ auth_tag_length_bytes
    → node.from_utf8 (node.utf8 plaintext) ≡ plaintext
    → ((bytes : Bytes) → node.from_base64 (node.base64 bytes) ≡ bytes)
    → ((bytes : Bytes)
        → node.decipher key iv (node.cipher key iv bytes).auth_tag (node.cipher key iv bytes).body
          ≡ ok bytes)
    → decrypt node key (encrypt node key iv plaintext) ≡ ok plaintext
unfolding encrypt decrypt
decrypt-encrypt node key iv plaintext iv_size tag_size printed coded undone =
    let sealed : Encrypted = node.cipher key iv (node.utf8 plaintext) in
    let rest : Bytes = sealed.auth_tag ++ sealed.body in
    let e_iv : take iv_length_bytes (iv ++ rest) ≡ iv = take-of iv_length_bytes iv rest iv_size in
    let e_rest : drop iv_length_bytes (iv ++ rest) ≡ rest =
      drop-of iv_length_bytes iv rest iv_size in
    let e_tag : take auth_tag_length_bytes rest ≡ sealed.auth_tag =
      take-of auth_tag_length_bytes sealed.auth_tag sealed.body tag_size in
    let e_body : drop 28 (iv ++ rest) ≡ sealed.body =
      drop-add 12 16 (iv ++ rest)
      ∙ ap (λ b. drop 16 b) e_rest
      ∙ drop-of auth_tag_length_bytes sealed.auth_tag sealed.body tag_size in
    let opened : Bytes → Bytes → Bytes → Throws Text =
      λ i t b. node.decipher key i t b >>= (λ plain. ok (node.from_utf8 plain)) in
    ap (λ p. opened (take 12 p) (take 16 (drop 12 p)) (drop 28 p)) (coded (iv ++ rest))
    ∙ ap (λ i. opened i (take 16 (drop 12 (iv ++ rest))) (drop 28 (iv ++ rest))) e_iv
    ∙ ap (λ t. opened iv t (drop 28 (iv ++ rest))) (ap (λ b. take 16 b) e_rest ∙ e_tag)
    ∙ ap (λ b. opened iv sealed.auth_tag b) e_body
    ∙ ap (λ r. r >>= (λ plain. ok (node.from_utf8 plain))) (undone (node.utf8 plaintext))
    ∙ ap ok printed
