-- ===== src/Program/Placed.antt =====
-- What the loop of `add_function` over the blocks (src/minimachine/vm.py) leaves in the tables.
use minimachine.Prelude.{
  ap, sym, subst, ℕ, ◌+◌, ◌≤◌, String, ◌≡◌, refl, ◌⊎◌, inl, inr, arith, some, List, [], ◌∷◌, map,
  ok, nat_eq, string_eq, pair_eq,
}
use minimachine.Prelude.Dict
use minimachine.Prelude.Dict.{get-put_cases, get-put_keeps, Dict, get-put, get-put_self}
use minimachine.P3
use minimachine.Verify.Sets.{Member}
use minimachine.Program.{Program}
use minimachine.Program.Link.{alloc_code, place_block, place_blocks}

-- The program after one block.
abbrev pub placed_one : String → P3.Block → Program → Program
placed_one name block p = record p {
  next_code = p.next_code + 8;
  block_code = Dict.put p.block_code (name, block.label) p.next_code;
  code_block = Dict.put p.code_block p.next_code (name, block.label);
}

pub placed : String → List P3.Block → Program → Program
placed name [] p = p
placed name (b ∷ bs) p = placed name bs (placed_one name b p)

pub place_blocks-ok :
    (name : String) (bs : List P3.Block) (p : Program)
    → place_blocks name bs p ≡ (ok tt, placed name bs p)
unfolding place_blocks place_block alloc_code placed
place_blocks-ok name [] p = refl
place_blocks-ok name (b ∷ bs) p = place_blocks-ok name bs (placed_one name b p)

-- Only the two code tables and the next code change.
pub record IsPlaced (name : String) (bs : List P3.Block) (p q : Program) : Type 0 where
  pub functions : q.functions ≡ p.functions
  pub host_code : q.host_code ≡ p.host_code
  pub host_services : q.host_services ≡ p.host_services
  pub symbol_addresses : q.symbol_addresses ≡ p.symbol_addresses
  pub initial_memory : q.initial_memory ≡ p.initial_memory
  pub next_data : q.next_data ≡ p.next_data
  pub halt_code : q.halt_code ≡ p.halt_code
  pub next_code : p.next_code ≤ q.next_code

pub placed-IsPlaced :
    (name : String) (bs : List P3.Block) (p : Program) → IsPlaced name bs p (placed name bs p)
unfolding placed
placed-IsPlaced name [] p = ground arith
placed-IsPlaced name (b ∷ bs) p = ground (arith, placed-IsPlaced name bs (placed_one name b p))

-- A block that had a code keeps one.
pub placed-keeps :
    (name : String) (bs : List P3.Block) (p : Program) (k : String × String) (c : ℕ)
    → Dict.get p.block_code k ≡ some c
    → (d : ℕ) × (Dict.get (placed name bs p).block_code k ≡ some d)
unfolding placed
placed-keeps name [] p k c h = (c, h)
placed-keeps name (b ∷ bs) p k c h =
    let (d, e) = get-put_keeps p.block_code (name, b.label) k p.next_code c h in
    placed-keeps name bs (placed_one name b p) k d e

-- Each block of the list has a code.
pub placed-labels :
    (name : String) (bs : List P3.Block) (p : Program) (label : String)
    → Member label (map (λ b. b.label) bs)
    → (d : ℕ) × (Dict.get (placed name bs p).block_code (name, label) ≡ some d)
unfolding placed
placed-labels name [] p label m = absurd m
placed-labels name (b ∷ bs) p label (inl e) =
    placed-keeps name bs (placed_one name b p) (name, label) p.next_code
      (subst
        (λ l.
          Dict.get (Dict.put p.block_code (name, b.label) p.next_code) (name, l) ≡ some p.next_code)
        e (get-put_self p.block_code (name, b.label) p.next_code))
placed-labels name (b ∷ bs) p label (inr m) = placed-labels name bs (placed_one name b p) label m

owner_cons :
    (name : String) (b : P3.Block) (bs : List P3.Block) (p : Program) (c : ℕ) (n l : String)
    → (Dict.get (Dict.put p.code_block p.next_code (name, b.label)) c ≡ some (n, l))
      ⊎ ((n ≡ name) × Member l (map (λ b. b.label) bs))
    → (Dict.get p.code_block c ≡ some (n, l))
      ⊎ ((n ≡ name) × Member l (map (λ b. b.label) (b ∷ bs)))
owner_cons name b bs p c n l (inr m) = inr (m.0, inr m.1)
owner_cons name b bs p c n l (inl h) =
    elim (get-put_cases p.code_block p.next_code c (name, b.label) (n, l) h) [
      | inl (e, same) ↦ inr (
        sym (ap (λ (x : String × String). x.0) same),
        inl (ap (λ (x : String × String). x.1) same),
      )
      | inr old ↦ inl old
    ]

-- A code belongs to an old block or to one of the list.
pub placed-owner :
    (name : String) (bs : List P3.Block) (p : Program) (c : ℕ) (n l : String)
    → Dict.get (placed name bs p).code_block c ≡ some (n, l)
    → (Dict.get p.code_block c ≡ some (n, l)) ⊎ ((n ≡ name) × Member l (map (λ b. b.label) bs))
unfolding placed
placed-owner name [] p c n l h = inl h
placed-owner name (b ∷ bs) p c n l h =
    owner_cons name b bs p c n l (placed-owner name bs (placed_one name b p) c n l h)
