-- ===== src/Kallsyms/Installed.antt =====
-- The program that `install_p3_kallsyms` (src/minimachine/kallsyms.py) leaves has all the tables.
use minimachine.Prelude.{
  ℕ, String, true, false, Bool-cases, List, [], ◌∷◌, ◌≡◌, refl, sym, ap, subst, ◌∙◌, some,
  Option-cases, Result, ok, err, string_eq, ◌==◌, ==_iff, inl, inr, ◌+◌, length, arith,
}
use minimachine.Prelude.Dict
use minimachine.Prelude.Dict.{Dict, contains}
use minimachine.Exec.{>>=-eq-ok}
use minimachine.Program.{Program}
use minimachine.Program.Link.{
  refuse_if, alloc_data, define_symbol, write_initial, write_data, define_data_symbol,
}
use minimachine.Program.Linked.{refuse_if-inv}
use minimachine.Error.{VmError, duplicate_program_symbol}
use minimachine.Kallsyms.{KallsymsError, KallsymsImage, build_p3_kallsyms}
use minimachine.Kallsyms.Install.{
  as_defining, kallsyms_required, install_one, install_all, install_image, install_p3_kallsyms,
  payloads, has_all, is_member,
}

-- A symbol of the first program has the same address in the second.
abbrev pub KeepsSymbols : Program → Program → Type 0
KeepsSymbols p q =
    (n : String) (v : ℕ)
    → Dict.get p.symbol_addresses n ≡ some v
    → Dict.get q.symbol_addresses n ≡ some v

write_initial-symbols :
    (a bits v : ℕ) (p q : Program)
    → write_initial a bits v p ≡ (ok tt, q)
    → q.symbol_addresses ≡ p.symbol_addresses
unfolding write_initial
write_initial-symbols a bits v p q h = ground arith

write_data-symbols :
    (a i : ℕ) (bytes : List ℕ) (p q : Program)
    → write_data a i bytes p ≡ (ok tt, q)
    → q.symbol_addresses ≡ p.symbol_addresses
unfolding write_data
write_data-symbols a i [] p q h = ground arith
write_data-symbols a i (b ∷ bs) p q h =
    let (u, r, e, h1) = >>=-eq-ok (write_initial (a + i) 8 b) _ p q h in
    write_data-symbols a (i + 1) bs r q h1 ∙ write_initial-symbols (a + i) 8 b p r e

define_symbol-symbols :
    (s : String) (a : ℕ) (p q : Program)
    → define_symbol s a p ≡ (ok tt, q)
    → q.symbol_addresses ≡ Dict.put p.symbol_addresses s a
unfolding define_symbol
define_symbol-symbols s a p q h = ground arith

alloc_data-symbols :
    (size align d : ℕ) (p q : Program)
    → alloc_data size align p ≡ (ok d, q)
    → q.symbol_addresses ≡ p.symbol_addresses
unfolding alloc_data
alloc_data-symbols size align d p q h = ground arith

-- A data symbol is new, and gets an address.
define_data_symbol-symbols :
    (s : String) (bytes : List ℕ) (align a : ℕ) (p q : Program)
    → define_data_symbol s bytes align p ≡ (ok a, q)
    → (b : ℕ) × (contains p.symbol_addresses s ≡ false)
      × (q.symbol_addresses ≡ Dict.put p.symbol_addresses s b)
unfolding define_data_symbol
define_data_symbol-symbols s bytes align a p q h =
    let (u1, p1, e1, h1) =
      >>=-eq-ok (refuse_if (contains p.symbol_addresses s) (duplicate_program_symbol s)) _ p q h in
    let (fresh, same) = refuse_if-inv _ _ p p1 e1 in
    let (b, p2, e2, h2) = >>=-eq-ok (alloc_data (length bytes) align) _ p1 q h1 in
    let (u3, p3, e3, h3) = >>=-eq-ok (define_symbol s b) _ p2 q h2 in
    let (u4, p4, e4, h4) = >>=-eq-ok (write_data b 0 bytes) _ p3 q h3 in
    let last : p4 ≡ q = ap (λ r. r.1) h4 in
    (
      b,
      fresh,
      ap (λ (r : Program). r.symbol_addresses) (sym last)
          ∙ write_data-symbols b 0 bytes p3 p4 e4
          ∙ define_symbol-symbols s b p2 p3 e3
          ∙ ap (λ d. Dict.put d s b)
              (alloc_data-symbols (length bytes) align b p1 p2 e2
                ∙ ap (λ (r : Program). r.symbol_addresses) (sym same)),
    )

put-keeps :
    (d : Dict String ℕ) (s n : String) (b v : ℕ)
    → contains d s ≡ false
    → Dict.get d n ≡ some v
    → Dict.get (Dict.put d s b) n ≡ some v
put-keeps d s n b v fresh h = elim (Bool-cases (s == n)) [
  | inl e ↦ let same = (==_iff s n).0 e in absurd (cc)
  | inr e ↦ Dict.get-put d s n b ∙ rw e h
]

contains-keeps :
    (p q : Program) (n : String)
    → KeepsSymbols p q
    → contains p.symbol_addresses n ≡ true
    → contains q.symbol_addresses n ≡ true
contains-keeps p q n keeps h = elim (Option-cases (Dict.get p.symbol_addresses n)) [
  | inl e ↦ absurd (cc)
  | inr (v, e) ↦ rw (keeps n v e) refl
]

install_one-keeps :
    (n : String) (bytes : List ℕ) (align : ℕ) (p q : Program) (names : List String)
    → install_one n bytes align p ≡ (ok names, q)
    → KeepsSymbols p q × (contains q.symbol_addresses n ≡ true)
unfolding install_one
install_one-keeps n bytes align p q names h = elim (Bool-cases (contains p.symbol_addresses n)) [
  | inl e ↦
      let same : p ≡ q = ap (λ r. r.1) (rw (e, install_one) at h) in
      subst (λ r. KeepsSymbols p r × (contains r.symbol_addresses n ≡ true)) same ((λ m v g. g), e)
  | inr e ↦
      let (a, r, e1, h1) =
        >>=-eq-ok (define_data_symbol n bytes align) _ p q (rw (e, install_one) at h) in
      let same : r ≡ q = ap (λ r. r.1) h1 in
      let (b, fresh, put) = define_data_symbol-symbols n bytes align a p r e1 in
      subst (λ r. KeepsSymbols p r × (contains r.symbol_addresses n ≡ true)) same
        (
          (λ m v g. ap (λ d. Dict.get d m) put ∙ put-keeps p.symbol_addresses n m b v fresh g),
          rw (put, Dict.get-put_self p.symbol_addresses n b) refl,
        )
]

-- The names of the payloads.
abbrev names_of : List (String × List ℕ × ℕ) → List String
names_of [] = []
names_of ((n, bytes, align) ∷ rest) = n ∷ names_of rest

install_all-keeps :
    (ps : List (String × List ℕ × ℕ)) (p q : Program) (names : List String)
    → install_all ps p ≡ (ok names, q)
    → KeepsSymbols p q × (has_all q (names_of ps) ≡ true)
unfolding install_all has_all
install_all-keeps [] p q names h =
    let same : p ≡ q = ap (λ r. r.1) h in
    subst (λ r. KeepsSymbols p r × (true ≡ true)) same ((λ m v g. g), refl)
install_all-keeps ((n, bytes, align) ∷ ps) p q names h =
    let (one, r, e1, h1) = >>=-eq-ok (install_one n bytes align) _ p q h in
    let (rest, t, e2, h2) = >>=-eq-ok (install_all ps) _ r q h1 in
    let same : t ≡ q = ap (λ r. r.1) h2 in
    let (keeps1, there) = install_one-keeps n bytes align p r one e1 in
    let (keeps2, others) =
      subst (λ t. KeepsSymbols r t × (has_all t (names_of ps) ≡ true)) same
        (install_all-keeps ps r t rest e2) in
    ((λ m v g. keeps2 m v (keeps1 m v g)), rw (contains-keeps r q n keeps2 there) others)

as_defining-inv :
    (r : Result VmError (List String) × Program) (names : List String) (q : Program)
    → as_defining r ≡ (ok names, q)
    → r ≡ (ok names, q)
unfolding as_defining
as_defining-inv (ok ns, t) names q h = cc
as_defining-inv (err e, t) names q h = absurd (cc)

install_image-keeps :
    (image : Result KallsymsError KallsymsImage) (p q : Program) (names : List String)
    → install_image image p ≡ (ok names, q)
    → KeepsSymbols p q × (has_all q kallsyms_required ≡ true)
unfolding install_image payloads
install_image-keeps (err e) p q names h = absurd (cc)
install_image-keeps (ok image) p q names h =
    install_all-keeps (payloads image) p q names
      (as_defining-inv (install_all (payloads image) p) names q h)

-- When the image refers to the number of symbols and the installation raises nothing, the program
-- has every kernel symbol table afterwards, and each symbol that it had keeps its address.
pub install_p3_kallsyms-has_all :
    (external_data : List String) (p q : Program) (names : List String)
    → is_member "kallsyms_num_syms" external_data ≡ true
    → install_p3_kallsyms external_data p ≡ (ok names, q)
    → KeepsSymbols p q × (has_all q kallsyms_required ≡ true)
unfolding install_p3_kallsyms
install_p3_kallsyms-has_all ext p q names needed h =
    elim (Bool-cases (has_all p kallsyms_required)) [
      | inl e ↦
          let same : p ≡ q = ap (λ r. r.1) (rw (needed, e, install_p3_kallsyms) at h) in
          subst (λ r. KeepsSymbols p r × (has_all r kallsyms_required ≡ true)) same
            ((λ m v g. g), e)
      | inr e ↦
          install_image-keeps (build_p3_kallsyms p) p q names
            (rw (needed, e, install_p3_kallsyms) at h)
    ]
