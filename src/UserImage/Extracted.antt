-- ===== src/UserImage/Extracted.antt =====
-- A bFLT file gives the function back that it was built from (src/minimachine/user_image.py,
-- `build_bflt` and `extract_bflt_payload`).
use minimachine.Prelude.{
  nat_eqb_iff, ℕ, suc, zero, ◌+◌, ◌*◌, ◌-◌, ◌/◌, ◌≡◌, refl, ap, ◌∙◌, subst, Bool, true, [], ◌∷◌,
  ◌++◌, length, length-append, ok, arith, ok-injective, >>=-eq-ok, le→leb, not,
}
use minimachine.Prelude.Int.{ℤ}
use minimachine.P3
use minimachine.Verify.{is_nil}
use minimachine.Verify.Strict.{IsStrict}
use minimachine.UserImage.Payload.{
  Bytes, Library, take, drop, pack_words, unpack_words, same_bytes, flat_magic, unpack_user_payload,
  pack_user_payload,
}
use minimachine.UserImage.Codec.{with_sorted_slots}
use minimachine.UserImage.Packed.{
  ReadsBack, all_cells, joined_lem, pack_words-inv, unpack_user_payload-pack_user_payload,
}
use minimachine.UserImage.Flat
use minimachine.UserImage.Flat.{
  flat_words, zeros, wrap_payload, build_flat, extract_flat_payload, check_header, align_up,
  check_stack_size, flags_of,
}

-- The end of the text: the first multiple of 32 that fits the header and the payload.
abbrev text_end_of : ℕ → ℕ
text_end_of n = (64 + n + 32 - 1) / 32 * 32

abbrev flat_of : Bytes → ℕ → Bool → Bytes
flat_of payload stack ktrace =
    flat_magic
    ++ all_cells (flat_words (text_end_of (length payload)) stack ktrace)
    ++ payload
    ++ zeros (text_end_of (length payload) - (64 + length payload))

length-zeros : (n : ℕ) → length (zeros n) ≡ n
unfolding zeros
length-zeros zero = refl
length-zeros (suc n) = ap suc (length-zeros n)

take_all : (bs : Bytes) → take (length bs) bs ≡ bs
unfolding take
take_all [] = refl
take_all (b ∷ bs) = ap (λ (t : Bytes). b ∷ t) (take_all bs)

wrap_payload-inv :
    (payload : Bytes) (stack_size : ℤ) (ktrace : Bool) (image : Bytes)
    → wrap_payload payload stack_size ktrace ≡ ok image
    → (stack : ℕ) × (flat_of payload stack ktrace ≡ image)
unfolding wrap_payload align_up Flat.is_power
wrap_payload-inv payload stack_size ktrace image h =
    let (stack, e, g) = >>=-eq-ok (check_stack_size stack_size) _ h in
    let (words, e', g') =
      >>=-eq-ok (pack_words (flat_words (text_end_of (length payload)) stack ktrace)) _ g in
    (
      stack,
      ap
            (λ (t : Bytes).
              flat_magic
              ++ t
              ++ payload
              ++ zeros (text_end_of (length payload) - (64 + length payload)))
            (pack_words-inv (flat_words (text_end_of (length payload)) stack ktrace) words e')
          ∙ ok-injective g',
    )

module _ (lib : Library) where
  -- What is read from a file is its payload with the bytes that fill it up.
  extract-flat_of :
      (payload : Bytes) (stack : ℕ) (ktrace : Bool)
      → extract_flat_payload lib (flat_of payload stack ktrace)
        ≡ unpack_user_payload lib
            (payload ++ zeros (text_end_of (length payload) - (64 + length payload)))
  unfolding extract_flat_payload check_header same_bytes take drop unpack_words
  extract-flat_of payload stack ktrace =
      let te : ℕ = text_end_of (length payload) in
      let pad : Bytes = zeros (te - (64 + length payload)) in
      let whole : Bytes = flat_of payload stack ktrace in
      let size : length (payload ++ pad) ≡ te - 64 =
        omega (arith, length-append payload pad, length-zeros (te - (64 + length payload))) in
      rw
        (
          joined_lem te,
          le→leb 64 (length whole) (omega arith),
          le→leb 64 te (omega arith),
          le→leb te te (omega arith),
          le→leb te (length whole) (omega (arith, size)),
          (nat_eqb_iff te te).1 refl,
        )
        (ap (unpack_user_payload lib) (
          subst (λ (n : ℕ). take n (payload ++ pad) ≡ payload ++ pad) size
            (take_all (payload ++ pad))))

  -- A strict function with a block, built into a bFLT file with any stack size and flags, compressed
  -- or not, is extracted again, with its set of frame slots sorted.
  pub extract_flat_payload-build_flat :
      (f : P3.Function) (stack_size : ℤ) (ktrace compress : Bool) (image : Bytes)
      → ReadsBack lib f
      → IsStrict f
      → not (is_nil f.blocks) ≡ true
      → build_flat lib f stack_size ktrace compress ≡ ok image
      → extract_flat_payload lib image ≡ ok (with_sorted_slots f)
  unfolding build_flat
  extract_flat_payload-build_flat f stack_size ktrace compress image faithful strict some_block h =
      let (payload, e, g) = >>=-eq-ok (pack_user_payload lib f compress) _ h in
      let (stack, same) = wrap_payload-inv payload stack_size ktrace image g in
      subst (λ (t : Bytes). extract_flat_payload lib t ≡ ok (with_sorted_slots f)) same
        (extract-flat_of payload stack ktrace
          ∙ unpack_user_payload-pack_user_payload lib f faithful strict some_block compress payload
              (zeros (text_end_of (length payload) - (64 + length payload))) e)
