-- ===== src/Program/Linked.antt =====
-- The tables of a linked program (src/minimachine/vm.py) agree: every function is verified, every
-- label of a function has a code, and every code of a block belongs to a label of its function.
use minimachine.Prelude.{
  ◌∙◌, Bool, ◌||◌, ℕ, ◌+◌, String, ◌≡◌, refl, ◌⊎◌, inl, inr, arith, some, List, [], ◌∷◌, ok, nat_eq,
  string_eq, pair_eq, true, false, subst, ap, sym,
}
use minimachine.Prelude.Dict
use minimachine.Prelude.Dict.{
  is_some, get-put_cases, get-put_ne, contains, Dict, get-put, get-put_self,
}
use minimachine.P3
use minimachine.Error.{VmError, duplicate_program_symbol}
use minimachine.Exec.{◌>>=◌, ◌>>◌, reading, Exec, >>=-eq-ok}
use minimachine.Verify.{p3_labels, verify_p3}
use minimachine.Verify.Sets.{Member}
use minimachine.Program.{Program, LinkedFunction}
use minimachine.Program.Link.{
  add_functions, write_initial, alloc_data, define_symbol, place_blocks, link, add_function,
  check_function, refuse_if, empty_program, entry_code,
}
use minimachine.Program.Placed.{
  placed, place_blocks-ok, placed-IsPlaced, placed-labels, placed-keeps, placed-owner,
}

pub record IsLinked (p : Program) : Type 0 where
  -- a function is stored under its name, as `link` makes it, after verification
  pub verified :
      (name : String) (lf : LinkedFunction)
      → Dict.get p.functions name ≡ some lf
      → (verify_p3 lf.function ≡ ok tt) × (lf ≡ link lf.function)
  pub labelled :
      (name : String) (lf : LinkedFunction) (label : String)
      → Dict.get p.functions name ≡ some lf
      → Member label (p3_labels lf.function)
      → (code : ℕ) × (Dict.get p.block_code (name, label) ≡ some code)
  pub owned :
      (code : ℕ) (name label : String)
      → Dict.get p.code_block code ≡ some (name, label)
      → (lf : LinkedFunction) × (Dict.get p.functions name ≡ some lf)
        × Member label (p3_labels lf.function)

pub empty_program-IsLinked : IsLinked empty_program
unfolding empty_program Dict.get
empty_program-IsLinked = record {
  verified = λ name lf e. absurd (cc);
  labelled = λ name lf label e. absurd (cc);
  owned = λ code name label e. absurd (cc);
}

-- What a successful `add_function` did to the tables.
pub record IsAdded (f : P3.Function) (p q : Program) : Type 0 where
  pub verified : verify_p3 f ≡ ok tt
  pub fresh : Dict.contains p.functions f.name ≡ false
  pub functions : q.functions ≡ Dict.put p.functions f.name (link f)
  pub block_code :
      q.block_code
      ≡ (placed f.name f.blocks
          (record p { functions = Dict.put p.functions f.name (link f) })).block_code
  pub code_block :
      q.code_block
      ≡ (placed f.name f.blocks
          (record p { functions = Dict.put p.functions f.name (link f) })).code_block

or-false : (a b : Bool) → (a || b) ≡ false → a ≡ false
or-false a b h = ground arith

-- The tables of functions and codes are as before.
pub record SameTables (p q : Program) : Type 0 where
  pub functions : q.functions ≡ p.functions
  pub block_code : q.block_code ≡ p.block_code
  pub code_block : q.code_block ≡ p.code_block

pub SameTables-trans : {p q r : Program} → SameTables p q → SameTables q r → SameTables p r
SameTables-trans s t = record {
  functions = t.functions ∙ s.functions;
  block_code = t.block_code ∙ s.block_code;
  code_block = t.code_block ∙ s.code_block;
}

pub alloc_data-SameTables :
    (size align d : ℕ) (p q : Program) → alloc_data size align p ≡ (ok d, q) → SameTables p q
unfolding alloc_data
alloc_data-SameTables size align d p q h = ground arith

pub define_symbol-SameTables :
    (s : String) (a : ℕ) (p q : Program) → define_symbol s a p ≡ (ok tt, q) → SameTables p q
unfolding define_symbol
define_symbol-SameTables s a p q h = ground arith

pub write_initial-SameTables :
    (a bits v : ℕ) (p q : Program) → write_initial a bits v p ≡ (ok tt, q) → SameTables p q
unfolding write_initial
write_initial-SameTables a bits v p q h = ground arith

pub check_function-inv :
    (f : P3.Function) (p q : Program)
    → check_function f p ≡ (ok tt, q)
    → (verify_p3 f ≡ ok tt) × (p ≡ q)
unfolding check_function
check_function-inv f p q h = ground arith

pub refuse_if-inv :
    (b : Bool) (e : VmError) (p q : Program) → refuse_if b e p ≡ (ok tt, q) → (b ≡ false) × (p ≡ q)
unfolding refuse_if
refuse_if-inv true e p q h = absurd (cc)
refuse_if-inv false e p q h = (refl, cc)

-- What `add_function` does after the loop over the blocks.
abbrev finish_function : P3.Function → Exec Program (Unit {0})
finish_function f = do
  descriptor ← alloc_data 16 8
  define_symbol f.name descriptor
  entry ← reading (entry_code f.name f.blocks)
  write_initial (descriptor + 0) 64 entry
  write_initial (descriptor + 8) 64 (link f).frame_size

finish_function-SameTables :
    (f : P3.Function) (p q : Program) → finish_function f p ≡ (ok tt, q) → SameTables p q
finish_function-SameTables f p q h =
    let (d, p1, e1, h1) = >>=-eq-ok (alloc_data 16 8) _ p q h in
    let (u2, p2, e2, h2) = >>=-eq-ok (define_symbol f.name d) _ p1 q h1 in
    let (c, p3, e3, h3) = >>=-eq-ok (reading (entry_code f.name f.blocks)) _ p2 q h2 in
    let (u4, p4, e4, h4) = >>=-eq-ok (write_initial (d + 0) 64 c) _ p3 q h3 in
    let same : p2 ≡ p3 = ap (λ r. r.1) e3 in
    SameTables-trans (alloc_data-SameTables 16 8 d p p1 e1) (
      SameTables-trans (define_symbol-SameTables f.name d p1 p2 e2) (
        subst (λ r. SameTables r q) (sym same)
          (SameTables-trans (write_initial-SameTables (d + 0) 64 c p3 p4 e4)
            (write_initial-SameTables (d + 8) 64 (link f).frame_size p4 q h4))))

add_function-IsAdded :
    (f : P3.Function) (p q : Program) → add_function f p ≡ (ok tt, q) → IsAdded f p q
unfolding add_function
add_function-IsAdded f p q h =
    let (u1, p1, e1, h1) = >>=-eq-ok (check_function f) _ p q h in
    let (u2, p2, e2, h2) =
      >>=-eq-ok
        (refuse_if (contains p.functions f.name || contains p.symbol_addresses f.name)
          (duplicate_program_symbol f.name))
        _ p1 q h1 in
    let (v, s1) = check_function-inv f p p1 e1 in
    let (fresh, s2) = refuse_if-inv _ _ p1 p2 e2 in
    let same : p2 ≡ p = sym (s1 ∙ s2) in
    let start : Program = record p { functions = Dict.put p.functions f.name (link f) } in
    let (u3, p3, e3, h3) =
      >>=-eq-ok (place_blocks f.name f.blocks) (λ _. finish_function f) start q
        (subst
          (λ (r : Program).
            (place_blocks f.name f.blocks >>= λ _. finish_function f)
              (record r { functions = Dict.put r.functions f.name (link f) })
            ≡ (ok tt, q))
          same h2) in
    let at : p3 ≡ placed f.name f.blocks start =
      ap (λ r. r.1) (sym e3 ∙ place_blocks-ok f.name f.blocks start) in
    let done : SameTables (placed f.name f.blocks start) q =
      subst (λ r. SameTables r q) at (finish_function-SameTables f p3 q h3) in
    record {
      verified = v;
      fresh = or-false _ _ fresh;
      functions = done.functions ∙ (placed-IsPlaced f.name f.blocks start).functions;
      block_code = done.block_code;
      code_block = done.code_block;
    }

-- A link of a function is that of its own function.
abbrev IsVerified : LinkedFunction → Type 0
IsVerified lf = (verify_p3 lf.function ≡ ok tt) × (lf ≡ link lf.function)

module _ (f : P3.Function) (p q : Program) (l : IsLinked p) (a : IsAdded f p q) where
  abbrev started : Program
  started = record p { functions = Dict.put p.functions f.name (link f) }

  not_fresh :
      (name : String) (lf : LinkedFunction)
      → Dict.get p.functions name ≡ some lf
      → f.name ≡ name
      → ⊥
  not_fresh name lf e same =
      let found : Dict.get p.functions f.name ≡ some lf = rw same e in
      cc (sym a.fresh ∙ ap is_some found)

  kept :
      (name : String) (lf : LinkedFunction)
      → Dict.get p.functions name ≡ some lf
      → Dict.get (Dict.put p.functions f.name (link f)) name ≡ some lf
  kept name lf e =
      get-put_ne p.functions f.name name (link f) (λ same. not_fresh name lf e same) ∙ e

  added_cases :
      (name : String) (lf : LinkedFunction)
      → Dict.get q.functions name ≡ some lf
      → ((f.name ≡ name) × (link f ≡ lf)) ⊎ (Dict.get p.functions name ≡ some lf)
  added_cases name lf e =
      get-put_cases p.functions f.name name (link f) lf
        (subst (λ d. Dict.get d name ≡ some lf) a.functions e)

  added-IsVerified :
      (name : String) (lf : LinkedFunction) → Dict.get q.functions name ≡ some lf → IsVerified lf
  unfolding link
  added-IsVerified name lf e = elim (added_cases name lf e) [
    | inl (n, same) ↦
        subst (λ (lf : LinkedFunction). (verify_p3 lf.function ≡ ok tt) × (lf ≡ link lf.function))
          same (a.verified, refl)
    | inr old ↦ l.verified name lf old
  ]

  added-labelled :
      (name : String) (lf : LinkedFunction) (label : String)
      → Dict.get q.functions name ≡ some lf
      → Member label (p3_labels lf.function)
      → (code : ℕ) × (Dict.get q.block_code (name, label) ≡ some code)
  added-labelled name lf label e m = elim (added_cases name lf e) [
    | inl (n, same) ↦
        subst (λ name. (code : ℕ) × (Dict.get q.block_code (name, label) ≡ some code)) n
          (subst (λ d. (code : ℕ) × (Dict.get d (f.name, label) ≡ some code)) (sym a.block_code)
            (placed-labels f.name f.blocks started label (
              unfold link p3_labels in
              subst (λ (lf : LinkedFunction). Member label (p3_labels lf.function)) (sym same) m)))
    | inr old ↦
        let (c, e') = l.labelled name lf label old m in
        subst (λ d. (code : ℕ) × (Dict.get d (name, label) ≡ some code)) (sym a.block_code)
          (placed-keeps f.name f.blocks started (name, label) c e')
  ]

  added-owned :
      (code : ℕ) (name label : String)
      → Dict.get q.code_block code ≡ some (name, label)
      → (lf : LinkedFunction) × (Dict.get q.functions name ≡ some lf)
        × Member label (p3_labels lf.function)
  added-owned code name label e =
      elim (placed-owner f.name f.blocks started code name label
        (subst (λ d. Dict.get d code ≡ some (name, label)) a.code_block e)) [
          | inl old ↦
              let (lf, e', m) = l.owned code name label old in
              (lf, subst (λ d. Dict.get d name ≡ some lf) (sym a.functions) (kept name lf e'), m)
          | inr (n, m) ↦ (
            link f,
            subst (λ d. Dict.get d name ≡ some (link f)) (sym a.functions)
                (subst (λ n. Dict.get (Dict.put p.functions f.name (link f)) n ≡ some (link f))
                  (sym n) (get-put_self p.functions f.name (link f))),
            unfold link p3_labels in m,
          )
        ]

-- Linking a function keeps the tables in agreement.
pub add_function-IsLinked :
    (f : P3.Function) (p q : Program) → IsLinked p → add_function f p ≡ (ok tt, q) → IsLinked q
add_function-IsLinked f p q l h =
    let a = add_function-IsAdded f p q h in
    record {
      verified = added-IsVerified f p q l a;
      labelled = added-labelled f p q l a;
      owned = added-owned f p q l a;
    }

-- Whatever functions `Program(functions)` links without an exception, the tables of the program
-- agree: each function is verified and stored as linked, each of its labels has a code address,
-- and each block address leads to a label of a linked function.
pub add_functions-IsLinked :
    (fs : List P3.Function) (p q : Program)
    → IsLinked p
    → add_functions fs p ≡ (ok tt, q)
    → IsLinked q
unfolding add_functions
add_functions-IsLinked [] p q l h = subst IsLinked (ap (λ r. r.1) h) l
add_functions-IsLinked (f ∷ fs) p q l h =
    let (u, p1, e, h1) = >>=-eq-ok (add_function f) (λ _. add_functions fs) p q h in
    add_functions-IsLinked fs p1 q (add_function-IsLinked f p p1 l e) h1
