-- ===== src/Hosts/Keypair/Opened.antt =====
-- A reader of the format "openssh-key-v1" (PROTOCOL.key of OpenSSH, RFC 4251), written by itself, and
-- what it finds in the keys of src/hosts/ssh-keypair.util.ts.
use servers_manager.Base.{
  ℕ, zero, suc, ◌+◌, ◌*◌, ◌/◌, ◌%◌, ◌^◌, ◌<◌, ◌≡◌, refl, sym, ap, ◌∙◌, Bool, true, false, ◌&&◌,
  Option, none, some, [], ◌∷◌, ◌++◌, append_assoc, append-nil, codes, length, length-append, take,
  drop, take-length-append, drop-length-append, leb, ◌==◌, ==_refl, text_eq, if◌then◌else◌, arith,
  ok,
}
use servers_manager.Hosts.Keypair.{
  Bytes, be_bytes, uint32_be, ssh_string, key_type, magic, padding_from, padded,
}

infixl 5 ◌>>=◌ ◌>>◌
abbrev pub ◌>>=◌ : {A B : Type 0} → Option A → (A → Option B) → Option B
none >>= f = none
some a >>= f = f a

abbrev pub ◌>>◌ : {A B : Type 0} → Option A → Option B → Option B
m >> k = m >>= λ _. k

-- A step that answers goes on with its answer.
pub bound : {A B : Type 0} {m : Option A} {a : A} (f : A → Option B) → m ≡ some a → (m >>= f) ≡ f a
bound f e = ap (λ r. r >>= f) e

abbrev pub guard : Bool → Option (Unit {0})
guard true = some tt
guard false = none

abbrev pub value_of : ℕ → ℕ → ℕ → ℕ → ℕ
value_of a b c d = a * 2 ^ 24 + b * 2 ^ 16 + c * 2 ^ 8 + d

unfoldable pub read_uint32 : Bytes → Option (ℕ × Bytes)
read_uint32 (a ∷ b ∷ c ∷ d ∷ rest) = some (value_of a b c d, rest)
read_uint32 _ = none

unfoldable pub read_sized : ℕ → Bytes → Option (Bytes × Bytes)
read_sized n rest = if leb n (length rest) then some (take n rest, drop n rest) else none

unfoldable pub read_string : Bytes → Option (Bytes × Bytes)
read_string bytes = do (n, rest) ← read_uint32 bytes; read_sized n rest

unfoldable pub strip : Bytes → Bytes → Option Bytes
strip [] bytes = some bytes
strip (p ∷ prefix) [] = none
strip (p ∷ prefix) (b ∷ bytes) = let rest = strip prefix bytes in if p == b then rest else none

unfoldable pub is_padding : ℕ → Bytes → Bool
is_padding k [] = true
is_padding k (b ∷ bytes) = b == k + 1 && is_padding (k + 1) bytes

pub record OpenedKey : Type 0 where
  pub public_key : Bytes
  pub private_key : Bytes
  pub comment : Bytes

-- The section that an encrypted key would hide; its length is a multiple of the cipher's block.
unfoldable pub open_section : Bytes → Option OpenedKey
open_section section = do
  (first, rest) ← read_uint32 section
  (second, rest) ← read_uint32 rest
  guard (first == second)
  (type, rest) ← read_string rest
  guard (text_eq type key_type)
  (public, rest) ← read_string rest
  (private, rest) ← read_string rest
  (comment, rest) ← read_string rest
  guard (is_padding 0 rest)
  guard (length section % 8 == 0)
  some (record { public_key = public; private_key = private; comment = comment })

unfoldable pub open_blob : Bytes → Option Bytes
open_blob blob = do
  (type, rest) ← read_string blob
  guard (text_eq type key_type)
  (public, rest) ← read_string rest
  guard (text_eq rest [])
  some public

-- The key that is stored unencrypted, whose two copies of the public key agree.
unfoldable pub open_key : Bytes → Option OpenedKey
open_key body = do
  rest ← strip magic body
  (cipher, rest) ← read_string rest
  guard (text_eq cipher (codes "none"))
  (kdf, rest) ← read_string rest
  guard (text_eq kdf (codes "none"))
  (options, rest) ← read_string rest
  (number, rest) ← read_uint32 rest
  guard (number == 1)
  (blob, rest) ← read_string rest
  public ← open_blob blob
  (section, rest) ← read_string rest
  guard (text_eq rest [])
  key ← open_section section
  guard (text_eq public key.public_key)
  some key

pub read_uint32-be_bytes :
    (n : ℕ) (rest : Bytes) → n < 2 ^ 32 → read_uint32 (be_bytes n ++ rest) ≡ some (n, rest)
unfolding read_uint32 be_bytes
read_uint32-be_bytes n rest h =
    let whole : value_of (n / 2 ^ 24) (n / 2 ^ 16 % 2 ^ 8) (n / 2 ^ 8 % 2 ^ 8) (n % 2 ^ 8) ≡ n =
      omega arith in
    ap (λ m. some (m, rest)) whole

-- A string with its length before it.
abbrev pub sized : Bytes → Bytes
sized value = be_bytes (length value) ++ value

pub ssh_string-ok : (value : Bytes) → length value < 2 ^ 32 → ssh_string value ≡ ok (sized value)
unfolding ssh_string uint32_be
ssh_string-ok value h = ground arith

pub read_string-sized :
    (value rest : Bytes)
    → length value < 2 ^ 32
    → read_string (sized value ++ rest) ≡ some (value, rest)
unfolding read_string read_sized
read_string-sized value rest h =
    ap (λ r. r >>= (λ x. read_sized x.0 x.1))
      (ap read_uint32 (append_assoc (be_bytes (length value)) value rest)
        ∙ read_uint32-be_bytes (length value) (value ++ rest) h)
    ∙ rw (whole, take-length-append, drop-length-append)
  where
    whole : leb (length value) (length (value ++ rest)) ≡ true
    whole = ground (arith, length-append value rest)

pub read_string-last :
    (value : Bytes) → length value < 2 ^ 32 → read_string (sized value) ≡ some (value, [])
read_string-last value h =
    ap read_string (sym (append-nil (sized value))) ∙ read_string-sized value [] h

pub length-padding_from : (k n : ℕ) → length (padding_from k n) ≡ n
unfolding padding_from
length-padding_from k zero = refl
length-padding_from k (suc n) = omega (arith, length-padding_from (k + 1) n)

pub is_padding-padding_from : (k n : ℕ) → is_padding k (padding_from k n) ≡ true
unfolding padding_from is_padding
is_padding-padding_from k zero = refl
is_padding-padding_from k (suc n) = ground (arith, is_padding-padding_from (k + 1) n)

pub length-padded : (bytes : Bytes) → length (padded bytes) % 8 ≡ 0
unfolding padded
length-padded bytes = rw length-append (rw length-padding_from (omega arith))

pub strip-append : (prefix rest : Bytes) → strip prefix (prefix ++ rest) ≡ some rest
unfolding strip
strip-append [] rest = refl
strip-append (p ∷ prefix) rest = rw ((==_refl p)) (strip-append prefix rest)

pub length-sized : (value : Bytes) → length (sized value) ≡ length value + 4
unfolding be_bytes
length-sized value = omega arith

abbrev pub four_value : Bytes → ℕ
four_value (a ∷ b ∷ c ∷ d ∷ rest) = value_of a b c d
four_value _ = 0

pub read_uint32-four :
    (four rest : Bytes)
    → length four ≡ 4
    → read_uint32 (four ++ rest) ≡ some (four_value four, rest)
unfolding read_uint32
read_uint32-four [] rest h = absurd (omega arith)
read_uint32-four (a ∷ []) rest h = absurd (omega arith)
read_uint32-four (a ∷ b ∷ []) rest h = absurd (omega arith)
read_uint32-four (a ∷ b ∷ c ∷ []) rest h = absurd (omega arith)
read_uint32-four (a ∷ b ∷ c ∷ d ∷ []) rest h = refl
read_uint32-four (a ∷ b ∷ c ∷ d ∷ e ∷ four) rest h = absurd (omega arith)
