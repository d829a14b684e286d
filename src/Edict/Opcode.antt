-- ===== src/Edict/Opcode.antt =====
-- VMOpcode (edict/edict_types.h): the operation codes, and the byte that stands for each.
use agentc.Prelude.{ℕ, ◌<◌, ◌≡◌, refl, List, [], ◌∷◌, some, get_elem?, arith}

-- `map` of the source is spelled `map_lib` here, since `map` is a library function.
pub data VmOpcode : Type 0 where
  reset yield pushext splice dup swap pop ref assign remove remove_head eval ctx_push : VmOpcode
  ctx_pop fun_push fun_eval fun_pop frame_push frame_merge throw catch s2s d2s e2s : VmOpcode
  f2s s2d s2e s2f concat list_add fail test lookup_lax lookup_strict_null : VmOpcode
  lookup_strict_fail map_lib load import import_resolved import_deferred : VmOpcode
  import_collect import_status parse_json materialize_json resolve_json : VmOpcode
  import_resolved_json read_text request_id bootstrap_curate_parser : VmOpcode
  bootstrap_curate_resolver bootstrap_curate_cartographer closure rewrite_define : VmOpcode
  rewrite_list rewrite_remove rewrite_apply rewrite_mode rewrite_trace speculate : VmOpcode
  unsafe_extensions_allow unsafe_extensions_block unsafe_extensions_status print : VmOpcode
  heap_utilization cursor_down cursor_up cursor_next cursor_prev cursor_get : VmOpcode
  cursor_set freeze to_json from_json await ts_load ts_parse ts_list ts_diff : VmOpcode
  kg_create kg_add_node kg_add_edge kg_get_node kg_query kg_list_nodes kg_list_edges : VmOpcode
  overlay_new overlay_set overlay_get overlay_has overlay_keys overlay_shadow_keys : VmOpcode
  overlay_commit tcc_available tcc_compile tcc_run tcc_symbols tcc_drop : VmOpcode
  tcc_start_isolated tcc_status tcc_collect tcc_cancel tcc_allow_process_symbol : VmOpcode
  tcc_allow_library_symbol tcc_clear_symbols : VmOpcode

-- `static_cast<uint8_t>(op)`
unfoldable pub byte : VmOpcode → ℕ
byte reset = 0
byte yield = 1
byte pushext = 2
byte splice = 3
byte dup = 4
byte swap = 5
byte pop = 6
byte ref = 7
byte assign = 8
byte remove = 9
byte remove_head = 10
byte eval = 11
byte ctx_push = 12
byte ctx_pop = 13
byte fun_push = 14
byte fun_eval = 15
byte fun_pop = 16
byte frame_push = 17
byte frame_merge = 18
byte throw = 19
byte catch = 20
byte s2s = 21
byte d2s = 22
byte e2s = 23
byte f2s = 24
byte s2d = 25
byte s2e = 26
byte s2f = 27
byte concat = 28
byte list_add = 29
byte fail = 30
byte test = 31
byte lookup_lax = 32
byte lookup_strict_null = 33
byte lookup_strict_fail = 34
byte map_lib = 35
byte load = 36
byte import = 37
byte import_resolved = 38
byte import_deferred = 39
byte import_collect = 40
byte import_status = 41
byte parse_json = 42
byte materialize_json = 43
byte resolve_json = 44
byte import_resolved_json = 45
byte read_text = 46
byte request_id = 47
byte bootstrap_curate_parser = 48
byte bootstrap_curate_resolver = 49
byte bootstrap_curate_cartographer = 50
byte closure = 51
byte rewrite_define = 52
byte rewrite_list = 53
byte rewrite_remove = 54
byte rewrite_apply = 55
byte rewrite_mode = 56
byte rewrite_trace = 57
byte speculate = 58
byte unsafe_extensions_allow = 59
byte unsafe_extensions_block = 60
byte unsafe_extensions_status = 61
byte print = 62
byte heap_utilization = 63
byte cursor_down = 64
byte cursor_up = 65
byte cursor_next = 66
byte cursor_prev = 67
byte cursor_get = 68
byte cursor_set = 69
byte freeze = 70
byte to_json = 71
byte from_json = 72
byte await = 73
byte ts_load = 74
byte ts_parse = 75
byte ts_list = 76
byte ts_diff = 77
byte kg_create = 78
byte kg_add_node = 79
byte kg_add_edge = 80
byte kg_get_node = 81
byte kg_query = 82
byte kg_list_nodes = 83
byte kg_list_edges = 84
byte overlay_new = 85
byte overlay_set = 86
byte overlay_get = 87
byte overlay_has = 88
byte overlay_keys = 89
byte overlay_shadow_keys = 90
byte overlay_commit = 91
byte tcc_available = 92
byte tcc_compile = 93
byte tcc_run = 94
byte tcc_symbols = 95
byte tcc_drop = 96
byte tcc_start_isolated = 97
byte tcc_status = 98
byte tcc_collect = 99
byte tcc_cancel = 100
byte tcc_allow_process_symbol = 101
byte tcc_allow_library_symbol = 102
byte tcc_clear_symbols = 103

-- VMOP_COUNT
abbrev pub opcode_count : ℕ
opcode_count = 104

-- The table `dispatch` of `runCodeLoop` (edict/edict_vm_core.cpp): at each index the operation whose
-- handler the virtual machine jumps to.
abbrev pub dispatch : List VmOpcode
dispatch =
    reset ∷ yield ∷ pushext ∷ splice ∷ dup ∷ swap ∷ pop ∷ ref ∷ assign ∷ remove ∷ remove_head ∷ eval
    ∷ ctx_push ∷ ctx_pop ∷ fun_push ∷ fun_eval ∷ fun_pop ∷ frame_push ∷ frame_merge ∷ throw ∷ catch
    ∷ s2s ∷ d2s ∷ e2s ∷ f2s ∷ s2d ∷ s2e ∷ s2f ∷ concat ∷ list_add ∷ fail ∷ test ∷ lookup_lax
    ∷ lookup_strict_null ∷ lookup_strict_fail ∷ map_lib ∷ load ∷ import ∷ import_resolved
    ∷ import_deferred ∷ import_collect ∷ import_status ∷ parse_json ∷ materialize_json
    ∷ resolve_json ∷ import_resolved_json ∷ read_text ∷ request_id ∷ bootstrap_curate_parser
    ∷ bootstrap_curate_resolver ∷ bootstrap_curate_cartographer ∷ closure ∷ rewrite_define
    ∷ rewrite_list ∷ rewrite_remove ∷ rewrite_apply ∷ rewrite_mode ∷ rewrite_trace ∷ speculate
    ∷ unsafe_extensions_allow ∷ unsafe_extensions_block ∷ unsafe_extensions_status ∷ print
    ∷ heap_utilization ∷ cursor_down ∷ cursor_up ∷ cursor_next ∷ cursor_prev ∷ cursor_get
    ∷ cursor_set ∷ freeze ∷ to_json ∷ from_json ∷ await ∷ ts_load ∷ ts_parse ∷ ts_list ∷ ts_diff
    ∷ kg_create ∷ kg_add_node ∷ kg_add_edge ∷ kg_get_node ∷ kg_query ∷ kg_list_nodes ∷ kg_list_edges
    ∷ overlay_new ∷ overlay_set ∷ overlay_get ∷ overlay_has ∷ overlay_keys ∷ overlay_shadow_keys
    ∷ overlay_commit ∷ tcc_available ∷ tcc_compile ∷ tcc_run ∷ tcc_symbols ∷ tcc_drop
    ∷ tcc_start_isolated ∷ tcc_status ∷ tcc_collect ∷ tcc_cancel ∷ tcc_allow_process_symbol
    ∷ tcc_allow_library_symbol ∷ tcc_clear_symbols ∷ []

-- The byte written for an operation selects that operation's own handler.
pub dispatch-byte : (op : VmOpcode) → get_elem? dispatch (byte op) ≡ some op
unfolding byte
dispatch-byte reset = refl
dispatch-byte _ = refl

pub byte-lt : (op : VmOpcode) → byte op < opcode_count
unfolding byte
byte-lt reset = omega arith
byte-lt _ = omega arith
