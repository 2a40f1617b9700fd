-- ===== src/Program/Registered.antt =====
-- The host services that a program (src/minimachine/vm.py) has after functions are linked and a
-- service is registered.
use minimachine.Prelude.{
  ◌||◌, nat_eq, ℕ, ◌+◌, String, ◌≡◌, sym, ap, ◌∙◌, List, [], ◌∷◌, ok, arith, string_eq,
}
use minimachine.Prelude.Dict
use minimachine.Prelude.Dict.{contains, get-put_cases}
use minimachine.Exec.{>>=-eq-ok, reading}
use minimachine.Error.{duplicate_program_symbol}
use minimachine.Abi.Frame.{header_size}
use minimachine.Program.{Program}
use minimachine.Program.Link.{
  alloc_code, alloc_data, define_symbol, write_initial, refuse_if, register_service, add_functions,
  add_function, check_function, place_blocks, place_block, link, entry_code,
}
use minimachine.P3
use minimachine.Program.Linked.{check_function-inv, refuse_if-inv}
use minimachine.Vm.{HostService}

alloc_code-services :
    (c : ℕ) (p q : Program) → alloc_code p ≡ (ok c, q) → q.host_services ≡ p.host_services
unfolding alloc_code
alloc_code-services c p q h = ground arith

alloc_data-services :
    (size align d : ℕ) (p q : Program)
    → alloc_data size align p ≡ (ok d, q)
    → q.host_services ≡ p.host_services
unfolding alloc_data
alloc_data-services size align d p q h = ground arith

define_symbol-services :
    (s : String) (a : ℕ) (p q : Program)
    → define_symbol s a p ≡ (ok tt, q)
    → q.host_services ≡ p.host_services
unfolding define_symbol
define_symbol-services s a p q h = ground arith

write_initial-services :
    (a bits v : ℕ) (p q : Program)
    → write_initial a bits v p ≡ (ok tt, q)
    → q.host_services ≡ p.host_services
unfolding write_initial
write_initial-services a bits v p q h = ground arith

pub register_service-services :
    (symbol : String) (callback : HostService) (p q : Program)
    → register_service symbol callback p ≡ (ok tt, q)
    → q.host_services ≡ Dict.put p.host_services symbol callback
unfolding register_service
register_service-services symbol callback p q h =
    let (u, p1, e1, h) =
      >>=-eq-ok (refuse_if (contains p.symbol_addresses symbol) (duplicate_program_symbol symbol)) _
        p q h in
    let (code, p2, e2, h) = >>=-eq-ok alloc_code _ p1 q h in
    let served : Program = record p2 {
      host_code = Dict.put p2.host_code code symbol;
      host_services = Dict.put p2.host_services symbol callback;
    } in
    let (d, p3, e3, h) = >>=-eq-ok (alloc_data 16 8) _ served q h in
    let (v, p4, e4, h) = >>=-eq-ok (define_symbol symbol d) _ p3 q h in
    let (w, p5, e5, h) = >>=-eq-ok (write_initial (d + 0) 64 code) _ p4 q h in
    let before : p2.host_services ≡ p.host_services =
      alloc_code-services code p1 p2 e2
      ∙ ap (λ (r : Program). r.host_services) (sym (refuse_if-inv _ _ p p1 e1).1) in
    write_initial-services (d + 8) 64 header_size p5 q h
    ∙ write_initial-services (d + 0) 64 code p4 p5 e5
    ∙ define_symbol-services symbol d p3 p4 e4
    ∙ alloc_data-services 16 8 d served p3 e3
    ∙ ap (λ d. Dict.put d symbol callback) before

-- A program starts without host services, and linking functions adds none.
place_blocks-services :
    (name : String) (bs : List P3.Block) (p q : Program)
    → place_blocks name bs p ≡ (ok tt, q)
    → q.host_services ≡ p.host_services
unfolding place_blocks place_block alloc_code
place_blocks-services name [] p q h = ap (λ r. r.1.host_services) (sym h)
place_blocks-services name (b ∷ bs) p q h = place_blocks-services name bs _ q h

add_function-services :
    (f : P3.Function) (p q : Program)
    → add_function f p ≡ (ok tt, q)
    → q.host_services ≡ p.host_services
unfolding add_function
add_function-services f p q h =
    let (u1, p1, e1, h) = >>=-eq-ok (check_function f) _ p q h in
    let (u2, p2, e2, h) =
      >>=-eq-ok
        (refuse_if (contains p.functions f.name || contains p.symbol_addresses f.name)
          (duplicate_program_symbol f.name))
        _ p1 q h in
    let (u3, p3, e3, h) =
      >>=-eq-ok (place_blocks f.name f.blocks) _
        (record p2 { functions = Dict.put p2.functions f.name (link f) }) q h in
    let (d, p4, e4, h) = >>=-eq-ok (alloc_data 16 8) _ p3 q h in
    let (u5, p5, e5, h) = >>=-eq-ok (define_symbol f.name d) _ p4 q h in
    let (c, p6, e6, h) = >>=-eq-ok (reading (entry_code f.name f.blocks)) _ p5 q h in
    let (u7, p7, e7, h) = >>=-eq-ok (write_initial (d + 0) 64 c) _ p6 q h in
    let checked : p ≡ p1 = (check_function-inv f p p1 e1).1 in
    write_initial-services (d + 8) 64 (link f).frame_size p7 q h
    ∙ write_initial-services (d + 0) 64 c p6 p7 e7
    ∙ ap (λ r. r.1.host_services) (sym e6)
    ∙ define_symbol-services f.name d p4 p5 e5
    ∙ alloc_data-services 16 8 d p3 p4 e4
    ∙ place_blocks-services f.name f.blocks _ p3 e3
    ∙ ap (λ (r : Program). r.host_services) (sym (checked ∙ (refuse_if-inv _ _ p1 p2 e2).1))

pub add_functions-services :
    (fs : List P3.Function) (p q : Program)
    → add_functions fs p ≡ (ok tt, q)
    → q.host_services ≡ p.host_services
unfolding add_functions
add_functions-services [] p q h = ap (λ r. r.1.host_services) (sym h)
add_functions-services (f ∷ fs) p q h =
    let (u, r, e, h1) = >>=-eq-ok (add_function f) _ p q h in
    add_functions-services fs r q h1 ∙ add_function-services f p r e
