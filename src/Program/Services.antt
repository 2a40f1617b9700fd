-- ===== src/Program/Services.antt =====
-- Host services and data symbols (src/minimachine/vm.py): adding them keeps the tables of functions
-- and blocks in agreement.
use minimachine.Prelude.{
  inr, arith, nat_eq, inl, ◌⊎◌, pair_eq, some, ℕ, ◌+◌, String, ◌+++◌, ◌≡◌, refl, sym, ap, subst,
  true, false, Bool-cases, ok, ◌==◌, string_eq, if◌then◌else◌,
}
use minimachine.Prelude.Dict
use minimachine.Prelude.Dict.{contains}
use minimachine.Error.{
  duplicate_program_symbol, cannot_replace_non_function, host_service_already_registered,
}
use minimachine.Exec.{reading, >>=-eq-ok}
use minimachine.Abi.Names.{tag}
use minimachine.Abi.Frame.{header_size}
use minimachine.Vm.{HostService}
use minimachine.Program.{Program}
use minimachine.Program.Link.{
  alloc_code, alloc_data, define_symbol, write_initial, refuse_if, register_service,
  register_system, descriptor_of, replace_function_with_service,
}
use minimachine.Program.Linked.{
  IsLinked, SameTables, SameTables-trans, alloc_data-SameTables, define_symbol-SameTables,
  write_initial-SameTables, refuse_if-inv,
}

SameTables-IsLinked : {p q : Program} → SameTables p q → IsLinked p → IsLinked q
SameTables-IsLinked {p} {q} s l = record {
  verified = λ name lf e. l.verified name lf (subst (λ d. Dict.get d name ≡ some lf) s.functions e);
  labelled = λ name lf label e m.
      subst (λ d. (code : ℕ) × (Dict.get d (name, label) ≡ some code)) (sym s.block_code)
        (l.labelled name lf label (subst (λ d. Dict.get d name ≡ some lf) s.functions e) m);
  owned = λ code name label e.
      let (lf, f, m) =
        l.owned code name label
          (subst (λ d. Dict.get d code ≡ some (name, label)) s.code_block e) in
      (lf, subst (λ d. Dict.get d name ≡ some lf) (sym s.functions) f, m);
}

SameTables-same : {p q : Program} → p ≡ q → SameTables p q
SameTables-same {p} e =
    subst (SameTables p) e (record { functions = refl; block_code = refl; code_block = refl })

alloc_code-SameTables : (c : ℕ) (p q : Program) → alloc_code p ≡ (ok c, q) → SameTables p q
unfolding alloc_code
alloc_code-SameTables c p q h = ground arith

register_service-SameTables :
    (symbol : String) (callback : HostService) (p q : Program)
    → register_service symbol callback p ≡ (ok tt, q)
    → SameTables p q
unfolding register_service
register_service-SameTables symbol callback p q h =
    let (u, p1, e1, h) =
      >>=-eq-ok (refuse_if (contains p.symbol_addresses symbol) (duplicate_program_symbol symbol)) _
        p q h in
    let (code, p2, e2, h) = >>=-eq-ok alloc_code _ p1 q h in
    let served : Program = record p2 {
      host_code = Dict.put p2.host_code code symbol;
      host_services = Dict.put p2.host_services symbol callback;
    } in
    let (d, p3, e3, h) = >>=-eq-ok (alloc_data 16 8) _ served q h in
    let (v, p4, e4, h) = >>=-eq-ok (define_symbol symbol d) _ p3 q h in
    let (w, p5, e5, h) = >>=-eq-ok (write_initial (d + 0) 64 code) _ p4 q h in
    let same : SameTables p2 served = record {
      functions = refl;
      block_code = refl;
      code_block = refl;
    } in
    SameTables-trans (SameTables-same (refuse_if-inv _ _ p p1 e1).1) (
      SameTables-trans (alloc_code-SameTables code p1 p2 e2) (
        SameTables-trans same (
          SameTables-trans (alloc_data-SameTables 16 8 d served p3 e3) (
            SameTables-trans (define_symbol-SameTables symbol d p3 p4 e4) (
              SameTables-trans (write_initial-SameTables (d + 0) 64 code p4 p5 e5)
                (write_initial-SameTables (d + 8) 64 header_size p5 q h))))))

replace_function-SameTables :
    (symbol : String) (callback : HostService) (p q : Program)
    → replace_function_with_service symbol callback p ≡ (ok tt, q)
    → SameTables p q
unfolding replace_function_with_service
replace_function-SameTables symbol callback p q h =
    let (u, p1, e1, h) =
      >>=-eq-ok
        (refuse_if (if contains p.functions symbol then false else true)
          (cannot_replace_non_function symbol))
        _ p q h in
    let (d, p2, e2, h) = >>=-eq-ok (reading (descriptor_of symbol)) _ p1 q h in
    let name : String = "__mm_fast_" +++ symbol in
    let (v, p3, e3, h) =
      >>=-eq-ok (refuse_if (contains p.host_services name) (host_service_already_registered name)) _
        p2 q h in
    let (code, p4, e4, h) = >>=-eq-ok alloc_code _ p3 q h in
    let served : Program = record p4 {
      host_code = Dict.put p4.host_code code name;
      host_services = Dict.put p4.host_services name callback;
    } in
    let (w, p5, e5, h) = >>=-eq-ok (write_initial (d + 0) 64 code) _ served q h in
    let same : SameTables p4 served = record {
      functions = refl;
      block_code = refl;
      code_block = refl;
    } in
    SameTables-trans (SameTables-same (refuse_if-inv _ _ p p1 e1).1) (
      SameTables-trans (SameTables-same (ap (λ r. r.1) e2)) (
        SameTables-trans (SameTables-same (refuse_if-inv _ _ p2 p3 e3).1) (
          SameTables-trans (alloc_code-SameTables code p3 p4 e4) (
            SameTables-trans same (
              SameTables-trans (write_initial-SameTables (d + 0) 64 code served p5 e5)
                (write_initial-SameTables (d + 8) 64 header_size p5 q h))))))

pub register_system-inv :
    (op : String) (callback : HostService) (p q : Program)
    → register_system op callback p ≡ (ok tt, q)
    → register_service ("__mm_sys_" +++ tag op) callback p ≡ (ok tt, q)
unfolding register_system
register_system-inv op callback p q h = elim (Bool-cases (tag op == "")) [
  | inl e ↦ absurd (cc (rw e at h))
  | inr e ↦ rw e at h
]

pub services-IsLinked :
    (symbol : String) (callback : HostService) (p q : Program)
    → IsLinked p
    → (register_service symbol callback p ≡ (ok tt, q))
      ⊎ ((register_system symbol callback p ≡ (ok tt, q))
          ⊎ (replace_function_with_service symbol callback p ≡ (ok tt, q)))
    → IsLinked q
services-IsLinked symbol callback p q l (inl h) =
    SameTables-IsLinked (register_service-SameTables symbol callback p q h) l
services-IsLinked symbol callback p q l (inr (inl h)) =
    SameTables-IsLinked
      (register_service-SameTables ("__mm_sys_" +++ tag symbol) callback p q
        (register_system-inv symbol callback p q h))
      l
services-IsLinked symbol callback p q l (inr (inr h)) =
    SameTables-IsLinked (replace_function-SameTables symbol callback p q h) l
