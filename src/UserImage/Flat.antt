-- ===== src/UserImage/Flat.antt =====
-- bFLT files of user programs (src/minimachine/user_image.py): `_wrap_bflt_payload`, `build_bflt`,
-- `build_bflt_program` and `extract_bflt_payload`.
use minimachine.Prelude.{
  bit_and, ℕ, suc, zero, ◌+◌, ◌*◌, ◌-◌, ◌/◌, ◌^◌, Bool, ◌&&◌, leb, ltb, nat_eqb, string_eq,
  if◌then◌else◌, List, [], ◌∷◌, ◌++◌, length, ok, err, ◌>>=◌, ◌>>◌, require,
}
use minimachine.Prelude.Int.{ℤ, pos, negsuc}
use minimachine.P3
use minimachine.UserImage.{
  invalid_alignment, UserProgramImage, struct_error, invalid_stack_size, truncated_flat_image,
  bad_flat_magic, unsupported_flat_version, unexpected_entry, invalid_section_bounds,
  not_relocation_free,
}
use minimachine.UserImage.Decode.{Decoded}
use minimachine.UserImage.Payload.{
  Library, Bytes, take, drop, pack_words, unpack_words, same_bytes, flat_magic, flat_header_size,
  flat_version, data_align, flag_ktrace, pack_user_payload, pack_user_program, unpack_user_payload,
}

-- A power of two: not 0, and `align & (align - 1)` is 0.
unfoldable pub is_power : ℕ → Bool
is_power align = ltb 0 align && nat_eqb (bit_and align (align - 1)) 0

-- `(value + align - 1) & ~(align - 1)` for a power of two.
unfoldable pub align_up : ℕ → ℕ → Decoded ℕ
align_up value align = do
  require (is_power align) invalid_alignment
  ok ((value + align - 1) / align * align)

unfoldable pub zeros : ℕ → Bytes
zeros zero = []
zeros (suc n) = 0 ∷ zeros n

unfoldable pub check_stack_size : ℤ → Decoded ℕ
check_stack_size (negsuc n) = err (invalid_stack_size (negsuc n))
check_stack_size (pos n) =
    if ltb 0 n && ltb n (2 ^ 28) then ok n else err (invalid_stack_size (pos n))

abbrev pub flags_of : Bool → ℕ
flags_of ktrace = if ktrace then flag_ktrace else 0

-- The words of the header after the magic: revision, entry, ends of text, data and bss, stack,
-- relocations and flags, and what stays 0.
abbrev pub flat_words : ℕ → ℕ → Bool → List ℕ
flat_words text_end stack ktrace =
    flat_version
    ∷ flat_header_size
    ∷ text_end
    ∷ text_end
    ∷ text_end
    ∷ stack
    ∷ text_end
    ∷ 0
    ∷ flags_of ktrace
    ∷ 0
    ∷ 0
    ∷ 0
    ∷ 0
    ∷ 0
    ∷ 0
    ∷ []

unfoldable pub wrap_payload : Bytes → ℤ → Bool → Decoded Bytes
wrap_payload payload stack_size ktrace = do
  stack ← check_stack_size stack_size
  text_end ← align_up (flat_header_size + length payload) data_align
  words ← pack_words (flat_words text_end stack ktrace)
  ok (flat_magic ++ words ++ payload ++ zeros (text_end - (flat_header_size + length payload)))

-- What the reader takes from the header.
unfoldable pub check_header : ℕ → List ℕ → Decoded (ℕ × ℕ)
check_header size
      (rev ∷ start ∷ data_start ∷ data_end ∷ bss_end ∷ stack ∷ reloc_start ∷ reloc_count ∷ rest) =
    do
      require (nat_eqb rev flat_version) (unsupported_flat_version rev)
      require (nat_eqb start flat_header_size) (unexpected_entry start)
      require
          (leb start data_start
            && leb data_start data_end
            && leb data_end bss_end
            && leb bss_end size)
          invalid_section_bounds
      require (nat_eqb reloc_count 0 && nat_eqb reloc_start data_end) not_relocation_free
      ok (start, data_start)
check_header size _ = err struct_error

-- `image[first:last]`
abbrev pub slice_bytes : ℕ → ℕ → Bytes → Bytes
slice_bytes first last image = take (last - first) (drop first image)

module _ (lib : Library) where
  unfoldable pub build_flat_program : UserProgramImage → ℤ → Bool → Bool → Decoded Bytes
  build_flat_program p stack_size ktrace compress = do
    payload ← pack_user_program lib p compress
    wrap_payload payload stack_size ktrace

  unfoldable pub build_flat : P3.Function → ℤ → Bool → Bool → Decoded Bytes
  build_flat f stack_size ktrace compress = do
    payload ← pack_user_payload lib f compress
    wrap_payload payload stack_size ktrace

  unfoldable pub extract_flat_payload : Bytes → Decoded P3.Function
  extract_flat_payload image = do
    require (leb flat_header_size (length image)) truncated_flat_image
    require (same_bytes (take 4 image) flat_magic) bad_flat_magic
    bounds ← check_header (length image) (unpack_words (take 60 (drop 4 image)))
    unpack_user_payload lib (slice_bytes bounds.0 bounds.1 image)
