-- ===== src/Hosts/Keypair/RoundTrip.antt =====
-- The keys of src/hosts/ssh-keypair.util.ts, read back.
use servers_manager.Base.{
  ◌%◌, ◌^◌, ◌<◌, ◌≡◌, ap, ◌∙◌, true, some, [], ◌++◌, append_assoc, codes, length, length-append,
  ◌==◌, ==_refl, text_eq_refl, arith, ok,
}
use servers_manager.Hosts.Keypair.{
  Bytes, be_bytes, uint32_be, key_type, magic, public_key_blob, padding_from, padding_length,
  padded, private_section, key_body,
}
use servers_manager.Hosts.Keypair.Opened.{
  guard, OpenedKey, bound, is_padding, open_section, open_blob, open_key, sized, ssh_string-ok,
  read_string-sized, read_string-last, length-padding_from, is_padding-padding_from, length-padded,
  strip-append, length-sized, four_value, read_uint32-four, read_uint32-be_bytes,
}

module _ (check raw seed comment : Bytes) where
  abbrev inner : Bytes
  inner =
      check ++ (check ++ (sized key_type ++ (sized raw ++ (sized (seed ++ raw) ++ sized comment))))

  abbrev blob : Bytes
  blob = sized key_type ++ sized raw

  abbrev opened : OpenedKey
  opened = record { public_key = raw; private_key = seed ++ raw; comment = comment }

  module _ (check_size : length check ≡ 4) (raw_size : length raw ≡ 32)
      (seed_size : length seed ≡ 32) (short : length comment < 2 ^ 31) where
    both_size : length (seed ++ raw) ≡ 64
    both_size = omega (arith, length-append seed raw)

    private_section-padded : private_section check raw seed comment ≡ ok (padded inner)
    unfolding private_section
    private_section-padded = rw (ssh_string-ok key_type (omega arith)) (
        rw (ssh_string-ok raw (omega arith)) (
          rw (ssh_string-ok (seed ++ raw) (omega (arith, both_size)))
            (rw (ssh_string-ok comment (omega arith)))))

    abbrev flat : Bytes → Bytes
    flat pad =
        check
        ++ (check
            ++ (sized key_type ++ (sized raw ++ (sized (seed ++ raw) ++ (sized comment ++ pad)))))

    open_section-flat :
        (pad : Bytes)
        → is_padding 0 pad ≡ true
        → (length (flat pad) % 8 == 0) ≡ true
        → open_section (flat pad) ≡ some opened
    unfolding open_section
    open_section-flat pad h even =
        bound _ (read_uint32-four check _ check_size)
        ∙ bound _ (read_uint32-four check _ check_size)
        ∙ bound _ (ap guard (==_refl (four_value check)))
        ∙ bound _ (read_string-sized key_type _ (omega arith))
        ∙ bound _ (ap guard (text_eq_refl key_type))
        ∙ bound _ (read_string-sized raw _ (omega arith))
        ∙ bound _ (read_string-sized (seed ++ raw) _ (omega (arith, both_size)))
        ∙ bound _ (read_string-sized comment pad (omega arith))
        ∙ bound _ (ap guard h)
        ∙ bound _ (ap guard even)

    abbrev section : Bytes
    section = padded inner

    section_size : length section < 2 ^ 32
    unfolding padded be_bytes
    section_size =
        simp (length-append, length-sized, length-padding_from) (omega (arith, both_size))

    -- The padding brings the section to a multiple of the block length.
    open_section-section : open_section section ≡ some opened
    unfolding padded
    open_section-section =
        let pad : Bytes = padding_from 0 (padding_length (length inner)) in
        let same : section ≡ flat pad = simp append_assoc in
        let even : (length (flat pad) % 8 == 0) ≡ true = rw (← same) (rw (length-padded inner)) in
        rw same (open_section-flat pad (is_padding-padding_from 0 _) even)

    abbrev body : Bytes
    body =
        magic
        ++ (sized (codes "none")
            ++ (sized (codes "none")
                ++ (sized [] ++ (be_bytes 1 ++ (sized blob ++ sized section)))))

    blob_size : length blob ≡ 51
    blob_size = rw length-append (rw length-sized (rw length-sized (omega arith)))

    key_body-ok : key_body check raw seed comment ≡ ok body
    unfolding key_body uint32_be public_key_blob
    key_body-ok = rw (ssh_string-ok (codes "none") (omega arith)) (
        rw (ssh_string-ok [] (omega arith)) (
          rw (ssh_string-ok key_type (omega arith)) (
            rw (ssh_string-ok raw (omega arith)) (
              rw (ssh_string-ok blob (omega (arith, blob_size)))
                (rw private_section-padded (rw (ssh_string-ok section section_size)))))))

    open_blob-blob : open_blob blob ≡ some raw
    unfolding open_blob
    open_blob-blob =
        bound _ (read_string-sized key_type _ (omega arith))
        ∙ bound _ (ap guard (text_eq_refl key_type))
        ∙ bound _ (read_string-last raw (omega arith))
        ∙ bound _ (ap guard (text_eq_refl []))

    open_key-body : open_key body ≡ some opened
    unfolding open_key
    open_key-body =
        bound _ (strip-append magic _)
        ∙ bound _ (read_string-sized (codes "none") _ (omega arith))
        ∙ bound _ (ap guard (text_eq_refl (codes "none")))
        ∙ bound _ (read_string-sized (codes "none") _ (omega arith))
        ∙ bound _ (ap guard (text_eq_refl (codes "none")))
        ∙ bound _ (read_string-sized [] _ (omega arith))
        ∙ bound _ (read_uint32-be_bytes 1 _ (omega arith))
        ∙ bound _ (read_string-sized blob _ (omega (arith, blob_size)))
        ∙ bound _ open_blob-blob
        ∙ bound _ (read_string-last section section_size)
        ∙ bound _ (ap guard (text_eq_refl []))
        ∙ bound _ open_section-section
        ∙ bound _ (ap guard (text_eq_refl raw))

    -- For a key and a seed of 32 bytes, four random bytes and a comment below 2 ^ 31 bytes the key
    -- file is built, and a reader of the format finds in it the public key, the private key (the
    -- seed followed by the public key) and the comment, with the two random numbers equal, the
    -- padding counted up from 1 and the section a multiple of 8 bytes.
    pub open_key-key_body :
        (bytes : Bytes) × (key_body check raw seed comment ≡ ok bytes)
        × (open_key bytes
            ≡ some (record { public_key = raw; private_key = seed ++ raw; comment = comment }))
    open_key-key_body = (body, key_body-ok, open_key-body)
