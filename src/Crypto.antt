-- ===== src/Crypto.antt =====
-- src/crypto/crypto.service.ts: sealing text with AES-256-GCM. Node's `crypto` and `Buffer` are
-- parameters; bytes are numbers.
pub mod Sealed
use servers_manager.Base.{ℕ, ◌+◌, List, ◌++◌, Text, take, drop, Throws, ok, throw, ◌>>=◌}

abbrev pub Bytes : Type 0
Bytes = List ℕ

-- A ciphertext and its authentication tag.
pub record Encrypted : Type 0 where
  pub body : Bytes
  pub auth_tag : Bytes

pub record NodeCrypto : Type 0 where
  -- `Buffer.from(s, 'utf8')` and `toString('utf8')`, `toString('base64')` and its inverse
  pub utf8 : Text → Bytes
  pub from_utf8 : Bytes → Text
  pub base64 : Bytes → Text
  pub from_base64 : Text → Bytes
  -- the cipher and the decipher under a key and an initialisation vector; a wrong tag throws
  pub cipher : Bytes → Bytes → Bytes → Encrypted
  pub decipher : Bytes → Bytes → Bytes → Bytes → Throws Bytes

abbrev pub iv_length_bytes : ℕ
iv_length_bytes = 12

abbrev pub auth_tag_length_bytes : ℕ
auth_tag_length_bytes = 16

-- `iv` is what `randomBytes` gives.
unfoldable pub encrypt : NodeCrypto → Bytes → Bytes → Text → Text
encrypt node key iv plaintext =
    let sealed = node.cipher key iv (node.utf8 plaintext) in
    node.base64 (iv ++ (sealed.auth_tag ++ sealed.body))

unfoldable pub decrypt : NodeCrypto → Bytes → Text → Throws Text
decrypt node key ciphertext =
    let payload = node.from_base64 ciphertext in
    let iv = take iv_length_bytes payload in
    let auth_tag = take auth_tag_length_bytes (drop iv_length_bytes payload) in
    let encrypted = drop (iv_length_bytes + auth_tag_length_bytes) payload in
    do plain ← node.decipher key iv auth_tag encrypted; ok (node.from_utf8 plain)
