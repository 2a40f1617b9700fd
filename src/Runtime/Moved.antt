-- ===== src/Runtime/Moved.antt =====
-- `memmove`, `memcpy` and `memset` (src/minimachine/runtime.py): what each leaves in every byte.
use minimachine.Prelude.{
  ℕ, zero, suc, ◌+◌, ◌-◌, ◌%◌, ◌≤◌, ◌<◌, ◌≡◌, ◌⊎◌, refl, ap, ◌∙◌, sym, subst, arith, Bool-cases,
  inl, inr, nat_eqb, ltb, leb, ◌&&◌, if◌then◌else◌,
}
use minimachine.Memory.{SparseMemory, byte_at}
use minimachine.Memory.Bytes.{IsByteMemory, byte_at-put}
use minimachine.Runtime.Blob.{read_byte, store_byte}
use minimachine.Runtime.Encoded.{read_byte_lem, store_byte_lem}
use minimachine.Runtime.Copy.{gather, scatter, move_bytes, copy_bytes, whole}

pub byte_at-store_byte :
    (m : SparseMemory) (a v b : ℕ)
    → byte_at (store_byte m a v) b ≡ (if nat_eqb a b then v % 256 else byte_at m b)
byte_at-store_byte m a v b =
    ap (λ (r : SparseMemory). byte_at r b) (store_byte_lem m a v) ∙ byte_at-put m a (v % 256) b

pub store_byte-IsByteMemory :
    (m : SparseMemory) (a v : ℕ) → IsByteMemory m → IsByteMemory (store_byte m a v)
store_byte-IsByteMemory m a v w = record {
  bound = λ b. ground (arith, byte_at-store_byte m a v b, w.bound b);
}

-- The bytes `i` to `i + n` at `dst` are those at `src` in `m`, and the others those of `before`.
abbrev Moved : SparseMemory → SparseMemory → ℕ → ℕ → ℕ → ℕ → SparseMemory → Type 0
Moved m before dst src i n after =
    ((k : ℕ) → i ≤ k → k < i + n → byte_at after (dst + k) ≡ byte_at m (src + k))
    × ((c : ℕ) → (c < dst + i) ⊎ (dst + i + n ≤ c) → byte_at after c ≡ byte_at before c)

scatter-Moved :
    (m before : SparseMemory) (dst src i n : ℕ)
    → IsByteMemory m
    → Moved m before dst src i n (scatter whole before dst i (gather whole m src i n))
unfolding scatter gather
scatter-Moved m before dst src i zero w = ((λ k p q. absurd (omega arith)), λ c h. refl)
scatter-Moved m before dst src i (suc n) w =
    let next = store_byte before (dst + i) (read_byte m (src + i)) in
    let ih = scatter-Moved m next dst src (i + 1) n w in
    (
      λ k p q. ground (
        arith,
        ih.0 k,
        ih.1 (dst + k),
        byte_at-store_byte before (dst + i) (read_byte m (src + i)) (dst + k),
        read_byte_lem m (src + i) w,
        w.bound (src + i),
      ),
      λ c h. ground (arith, ih.1 c, byte_at-store_byte before (dst + i) (read_byte m (src + i)) c),
    )

-- `memmove` puts the bytes of the source at the destination, whether or not the two overlap, and
-- leaves every other byte as it was.
pub move_bytes-moves :
    (m : SparseMemory) (dst src n : ℕ)
    → IsByteMemory m
    → ((k : ℕ) → k < n → byte_at (move_bytes whole m dst src n) (dst + k) ≡ byte_at m (src + k))
      × ((c : ℕ)
          → (c < dst) ⊎ (dst + n ≤ c)
          → byte_at (move_bytes whole m dst src n) c ≡ byte_at m c)
unfolding move_bytes
move_bytes-moves m dst src n w =
    let moved = scatter-Moved m m dst src 0 n w in
    (λ k h. moved.0 k (omega arith) (omega arith), λ c h. moved.1 c (omega arith))

-- The bytes of the source that are still to be copied are those of `m`.
copy-Moved :
    (m before : SparseMemory) (dst src i n : ℕ)
    → IsByteMemory before
    → ((k : ℕ) → i ≤ k → k < i + n → byte_at before (src + k) ≡ byte_at m (src + k))
    → (dst ≤ src) ⊎ (src + i + n ≤ dst)
    → Moved m before dst src i n (copy_bytes before dst src i n)
unfolding copy_bytes
copy-Moved m before dst src i zero w still apart = ((λ k p q. absurd (omega arith)), λ c h. refl)
copy-Moved m before dst src i (suc n) w still apart =
    let v : ℕ = read_byte before (src + i) in
    let next = store_byte before (dst + i) v in
    let ih =
      copy-Moved m next dst src (i + 1) n (store_byte-IsByteMemory before (dst + i) v w)
        (λ k p q. ground (arith, byte_at-store_byte before (dst + i) v (src + k), still k))
        (omega arith) in
    (
      λ k p q. ground (
        arith,
        ih.0 k,
        ih.1 (dst + k),
        byte_at-store_byte before (dst + i) v (dst + k),
        read_byte_lem before (src + i) w,
        w.bound (src + i),
        still k,
      ),
      λ c h. ground (arith, ih.1 c, byte_at-store_byte before (dst + i) v c),
    )

-- `memcpy`, which reads each byte when it writes it, leaves the same bytes as `memmove` when the
-- destination does not start inside the source after its first byte.
pub copy_bytes-move_bytes :
    (m : SparseMemory) (dst src n : ℕ)
    → IsByteMemory m
    → (dst ≤ src) ⊎ (src + n ≤ dst)
    → (c : ℕ) → byte_at (copy_bytes m dst src 0 n) c ≡ byte_at (move_bytes whole m dst src n) c
unfolding move_bytes
copy_bytes-move_bytes m dst src n w apart c =
    let copied = copy-Moved m m dst src 0 n w (λ k p q. refl) (omega arith) in
    let moved = scatter-Moved m m dst src 0 n w in
    elim (Bool-cases (leb dst c && ltb c (dst + n))) [
      | inl e ↦
          let same : dst + (c - dst) ≡ c = ground arith in
          let below : c - dst < 0 + n = ground arith in
          subst
            (λ (t : ℕ).
              byte_at (copy_bytes m dst src 0 n) t
              ≡ byte_at (scatter whole m dst 0 (gather whole m src 0 n)) t)
            same
            (copied.0 (c - dst) (omega arith) below ∙ sym (moved.0 (c - dst) (omega arith) below))
      | inr e ↦ copied.1 c (ground arith) ∙ sym (moved.1 c (ground arith))
    ]
