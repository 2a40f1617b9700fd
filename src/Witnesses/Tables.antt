-- ===== src/Witnesses/Tables.antt =====
-- The installation of the kernel symbol tables (src/minimachine/kallsyms.py) in a linked program.
use minimachine.Prelude.{String, ◌≡◌, refl, true, List, [], ◌∷◌, ok, string_eq}
use minimachine.Prelude.Dict
use minimachine.Prelude.Dict.{Dict}
use minimachine.Program.{Program}
use minimachine.Program.Link
use minimachine.Memory
use minimachine.Verify
use minimachine.Kallsyms
use minimachine.Kallsyms.Install
use minimachine.Kallsyms.Install.{install_p3_kallsyms, is_member, has_all, kallsyms_required}
use minimachine.Kallsyms.Installed.{install_p3_kallsyms-has_all, KeepsSymbols}
use minimachine.Samples.{linked}

abbrev installed_names : List String
installed_names =
    "kallsyms_num_syms" ∷ "kallsyms_offsets" ∷ "kallsyms_names" ∷ "kallsyms_relative_base"
    ∷ "kallsyms_token_table" ∷ "kallsyms_token_index" ∷ "kallsyms_markers"
    ∷ "kallsyms_seqs_of_names" ∷ []

abbrev installed : Program
installed = (install_p3_kallsyms ("kallsyms_num_syms" ∷ []) linked).1

linked-installed :
    install_p3_kallsyms ("kallsyms_num_syms" ∷ []) linked ≡ (ok installed_names, installed)
unfolding install_p3_kallsyms is_member has_all Install.install_image Install.as_defining
    Install.install_all Install.install_one Install.payloads Kallsyms.build_p3_kallsyms
    Kallsyms.function_symbols Kallsyms.entries Kallsyms.entry_of Kallsyms.sort_by Kallsyms.insert_by
    Kallsyms.symbol_leb Kallsyms.first_address Kallsyms.base_of Kallsyms.pack Kallsyms.pack_offsets
    Kallsyms.encode_names Kallsyms.utf8 Kallsyms.utf8_char Kallsyms.has_nul Kallsyms.has_byte
    Kallsyms.is_used Kallsyms.tokens_from Kallsyms.pack_index Kallsyms.pack_names
    Kallsyms.encode_len Kallsyms.numbered Kallsyms.name_leb Kallsyms.pack_seqs
    Link.define_data_symbol Link.write_data Link.write_initial Link.alloc_data Link.define_symbol
    Link.refuse_if Memory.write Memory.write_bytes Dict.get Dict.put Link.add_functions
    Link.add_function Link.check_function Link.place_blocks Link.place_block Link.alloc_code
    Link.entry_code Link.link Link.empty_program Verify.verify_p3 Verify.check_all
linked-installed = refl

linked-needed : is_member "kallsyms_num_syms" ("kallsyms_num_syms" ∷ []) ≡ true
unfolding is_member
linked-needed = refl

install_p3_kallsyms-has_all_example :
    KeepsSymbols linked installed × (has_all installed kallsyms_required ≡ true)
install_p3_kallsyms-has_all_example =
    install_p3_kallsyms-has_all ("kallsyms_num_syms" ∷ []) linked installed installed_names
      linked-needed linked-installed
