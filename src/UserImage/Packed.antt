-- ===== src/UserImage/Packed.antt =====
-- Payloads and bFLT files are read back (src/minimachine/user_image.py).
use minimachine.Prelude.{
  ◌&&◌, ℕ, ◌+◌, ◌*◌, ◌/◌, ◌%◌, ◌^◌, ◌≡◌, refl, ap, ap₂, ◌∙◌, subst, Bool, true, false, leb, ltb,
  some, List, [], ◌∷◌, ◌++◌, length, length-append, ok, ◌>>=◌, arith, Bool-cases, inl, inr,
  ok-injective, >>=-eq-ok, le→leb, not,
}
use minimachine.P3
use minimachine.Verify.{is_nil}
use minimachine.Verify.Strict.{IsStrict}
use minimachine.Json.{Json}
use minimachine.UserImage.Encode.{function_to_obj}
use minimachine.UserImage.Decode
use minimachine.UserImage.Decode.{Decoded, function_from_obj}
use minimachine.UserImage.Payload
use minimachine.UserImage.Payload.{
  Bytes, Library, take, drop, pack_word, pack_words, unpack_words, same_bytes, payload_magic,
  flat_magic, with_header, read_payload, read_body, body_of, unpack_user_payload, pack_user_payload,
  payload_header_size, dumps_function, loads_function, inflate, as_object,
}
use minimachine.UserImage.Codec.{with_sorted_slots, function_from_obj-function_to_obj}

-- What the libraries promise: json reads back the object of the function, whose keys `dumps` sorts,
-- and zlib decompresses what it compressed.
pub record ReadsBack (lib : Library) (f : P3.Function) : Type 0 where
  pub loads-dumps : (j : Json) → function_to_obj f ≡ ok j → lib.loads (lib.dumps j) ≡ some j
  pub decompress-compress : (bs : Bytes) → lib.decompress (lib.compress bs) ≡ some bs

abbrev pub cells : ℕ → Bytes
cells n = n / 2 ^ 24 ∷ n / 2 ^ 16 % 256 ∷ n / 2 ^ 8 % 256 ∷ n % 256 ∷ []

abbrev joined : ℕ → ℕ
joined n = ((n / 2 ^ 24 * 2 ^ 8 + n / 2 ^ 16 % 256) * 2 ^ 8 + n / 2 ^ 8 % 256) * 2 ^ 8 + n % 256

pub joined_lem : (n : ℕ) → joined n ≡ n
joined_lem n = omega arith

pub pack_word-inv : (n : ℕ) (bs : Bytes) → pack_word n ≡ ok bs → cells n ≡ bs
unfolding pack_word
pack_word-inv n bs h = elim (Bool-cases (ltb n (2 ^ 32))) [
  | inl e ↦ ok-injective (rw e at h)
  | inr e ↦ absurd (cc)
]

pub take_append : (bs pad : Bytes) → take (length bs) (bs ++ pad) ≡ bs
unfolding take
take_append [] pad = refl
take_append (b ∷ bs) pad = ap (λ (t : Bytes). b ∷ t) (take_append bs pad)

abbrev pub all_cells : List ℕ → Bytes
all_cells [] = []
all_cells (n ∷ ns) = cells n ++ all_cells ns

pub pack_words-inv : (ns : List ℕ) (bs : Bytes) → pack_words ns ≡ ok bs → all_cells ns ≡ bs
unfolding pack_words
pack_words-inv [] bs h = ok-injective h
pack_words-inv (n ∷ ns) bs h =
    let (first, e, f) = >>=-eq-ok (pack_word n) _ h in
    let (rest, e', f') = >>=-eq-ok (pack_words ns) _ f in
    ap₂ (λ (a b : Bytes). a ++ b) (pack_word-inv n first e) (pack_words-inv ns rest e')
    ∙ ok-injective f'

with_header-inv :
    (v : ℕ) (body bs : Bytes)
    → with_header v body ≡ ok bs
    → payload_magic ++ cells v ++ cells (length body) ++ body ≡ bs
unfolding with_header
with_header-inv v body bs h =
    let (header, e, f) = >>=-eq-ok (pack_words (v ∷ length body ∷ [])) _ h in
    ap (λ (t : Bytes). payload_magic ++ t ++ body) (pack_words-inv (v ∷ length body ∷ []) header e)
    ∙ ok-injective f

-- Only a dict is read as a function.
read_is_object :
    (j : Json) (f : P3.Function) → function_from_obj j ≡ ok f → Payload.is_object j ≡ true
unfolding function_from_obj Decode.get_key
read_is_object (Json.dict es) f h = refl
read_is_object Json.null f h = absurd (cc)
read_is_object (Json.bool b) f h = absurd (cc)
read_is_object (Json.int n) f h = absurd (cc)
read_is_object (Json.text s) f h = absurd (cc)
read_is_object (Json.list is) f h = absurd (cc)

module _ (lib : Library) where
  -- A payload that is followed by other bytes is read up to its end.
  pub read_payload-with_header :
      (allowed : ℕ → Bool) (v : ℕ) (body bs pad : Bytes)
      → with_header v body ≡ ok bs
      → allowed v ≡ true
      → read_payload lib allowed (bs ++ pad) ≡ (body_of lib v body >>= λ b. ok (v, b))
  unfolding read_payload read_body same_bytes take drop unpack_words
  read_payload-with_header allowed v body bs pad h a =
      let whole : Bytes = payload_magic ++ cells v ++ cells (length body) ++ body ++ pad in
      subst
        (λ (t : Bytes).
          read_payload lib allowed (t ++ pad) ≡ (body_of lib v body >>= λ b. ok (v, b)))
        (with_header-inv v body bs h)
        (rw
          (
            joined_lem v,
            joined_lem (length body),
            a,
            take_append body pad,
            le→leb payload_header_size (length whole) (omega arith),
            le→leb (payload_header_size + length body) (length whole)
                (omega (arith, length-append body pad)),
          )
          refl)

  module _ (f : P3.Function) (faithful : ReadsBack lib f) (strict : IsStrict f)
      (some_block : not (is_nil f.blocks) ≡ true) where
    loads_function-dumps_function :
        (raw : Bytes)
        → dumps_function lib f ≡ ok raw
        → loads_function lib raw ≡ ok (with_sorted_slots f)
    unfolding dumps_function loads_function as_object
    loads_function-dumps_function raw h =
        let (j, e, g) = >>=-eq-ok (function_to_obj f) _ h in
        let read = function_from_obj-function_to_obj f j strict some_block e in
        subst (λ (t : Bytes). loads_function lib t ≡ ok (with_sorted_slots f)) (ok-injective g)
          (rw (faithful.loads-dumps j e, read_is_object j (with_sorted_slots f) read.1) (read.1))

    body_of-compress : (raw : Bytes) → body_of lib 2 (lib.compress raw) ≡ ok raw
    unfolding body_of inflate
    body_of-compress raw = rw (faithful.decompress-compress raw) refl

    -- A packed function is unpacked, whatever follows it.
    pub unpack_user_payload-pack_user_payload :
        (compress : Bool) (bs pad : Bytes)
        → pack_user_payload lib f compress ≡ ok bs
        → unpack_user_payload lib (bs ++ pad) ≡ ok (with_sorted_slots f)
    unfolding pack_user_payload unpack_user_payload body_of inflate
    unpack_user_payload-pack_user_payload true bs pad h =
        let (raw, e, g) = >>=-eq-ok (dumps_function lib f) _ h in
        rw
          (
            read_payload-with_header (λ v. leb 1 v && leb v 2) 2 (lib.compress raw) bs pad g refl,
            body_of-compress raw,
          )
          (loads_function-dumps_function raw e)
    unpack_user_payload-pack_user_payload false bs pad h =
        let (raw, e, g) = >>=-eq-ok (dumps_function lib f) _ h in
        rw (read_payload-with_header (λ v. leb 1 v && leb v 2) 1 raw bs pad g refl)
          (loads_function-dumps_function raw e)
