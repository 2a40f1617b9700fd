-- ===== src/Program/Blocks.antt =====
-- The block map of a linked function (src/minimachine/vm.py): each label of the function is found,
-- and what is found is one of its blocks.
use minimachine.Prelude.{subst, String, ◌≡◌, inl, inr, some, List, [], ◌∷◌, All, map, string_eq, ok}
use minimachine.Prelude.Dict
use minimachine.Prelude.Dict.{Dict, get-put_self, get-put_keeps, get-put_cases}
use minimachine.P3
use minimachine.Verify.{p3_labels, verify_p3}
use minimachine.Verify.Sets.{Member}
use minimachine.Verify.Strict.{IsStrictBlock, verify_p3-IsStrict}
use minimachine.Program.Link.{block_map_from, link}

block_map_from-keeps :
    (d : Dict String P3.Block) (bs : List P3.Block) (l : String) (b : P3.Block)
    → Dict.get d l ≡ some b
    → (c : P3.Block) × (Dict.get (block_map_from d bs) l ≡ some c)
unfolding block_map_from
block_map_from-keeps d [] l b h = (b, h)
block_map_from-keeps d (c ∷ cs) l b h =
    let (c', e) = get-put_keeps d c.label l c b h in
    block_map_from-keeps (Dict.put d c.label c) cs l c' e

block_map_from-finds :
    (d : Dict String P3.Block) (bs : List P3.Block) (l : String)
    → Member l (map (λ b. b.label) bs)
    → (c : P3.Block) × (Dict.get (block_map_from d bs) l ≡ some c)
unfolding block_map_from
block_map_from-finds d [] l m = absurd m
block_map_from-finds d (c ∷ cs) l (inl e) =
    block_map_from-keeps (Dict.put d c.label c) cs l c
      (subst (λ l. Dict.get (Dict.put d c.label c) l ≡ some c) e (get-put_self d c.label c))
block_map_from-finds d (c ∷ cs) l (inr m) = block_map_from-finds (Dict.put d c.label c) cs l m

block_map_from-All {κ} :
    (P : P3.Block → Type κ) (d : Dict String P3.Block) (bs : List P3.Block)
    → ((l : String) (b : P3.Block) → Dict.get d l ≡ some b → P b)
    → All P bs
    → (l : String) (b : P3.Block) → Dict.get (block_map_from d bs) l ≡ some b
    → P b
unfolding block_map_from
block_map_from-All P d [] old all l b e = old l b e
block_map_from-All P d (c ∷ cs) old all l b e =
    block_map_from-All P (Dict.put d c.label c) cs
      (λ k a f. elim (get-put_cases d c.label k c a f) [
        | inl (same, is_c) ↦ subst P is_c all.0
        | inr before ↦ old k a before
      ])
      all.1 l b e

module _ (f : P3.Function) (verified : verify_p3 f ≡ ok tt) where
  -- A label of a linked function leads to a block.
  pub link-finds :
      (l : String)
      → Member l (p3_labels f)
      → (b : P3.Block) × (Dict.get (link f).block_map l ≡ some b)
  unfolding link p3_labels
  link-finds l m = block_map_from-finds [] f.blocks l m

  -- The blocks of a verified function are strict.
  pub link-strict :
      (l : String) (b : P3.Block)
      → Dict.get (link f).block_map l ≡ some b
      → IsStrictBlock (p3_labels f) b
  unfolding link
  link-strict l b e =
      block_map_from-All (IsStrictBlock (p3_labels f)) [] f.blocks
        (λ k a h. absurd (unfold Dict.get in (cc))) ((verify_p3-IsStrict f).0 verified).1 l b e
