-- ===== src/Config/Read.antt =====
-- `config_read`: the configuration file, line by line.
pub mod Grown
pub mod Bare
pub mod Keeps
use smart_ac.Base.{
  ℕ, zero, suc, ◌+◌, ◌-◌, Bool, true, false, not, Option, none, some, List, [], ◌∷◌, ◌++◌, Bytes,
  ◌==◌, if◌then◌else◌, length,
}
use smart_ac.Config.{Config, State, is_minus_one, is_positive}
use smart_ac.Config.Block.{parse_ac_server}
use smart_ac.Config.Keywords.{
  OpCode, gw_ac_id, gw_ac_interface, daemon, debug_level, arp_table, ac_server, check_interval,
  popular_servers, is_have_wifidog, wifidog_path, config_parse_token,
}
use smart_ac.Config.Line.{max_buf, fgets, cut, cut_crlf, skip_spaces}
use smart_ac.Config.Popular.{parse_popular_servers}
use smart_ac.Cstring.{codes, until_nul, equal, equal_ignoring_case, starts_with}
use smart_ac.Cstring.Number.{ℤ, pos, negsuc, sscanf_int}
use smart_ac.Outcome.{Outcome, ok, exits, fault, ◌>>=◌}

unfoldable pub parse_boolean_value : Bytes → ℤ
unfolding equal equal_ignoring_case
parse_boolean_value line =
    if equal_ignoring_case line (codes "yes")
    then pos 1
    else if equal_ignoring_case line (codes "no")
    then pos 0
    else if equal line (codes "1")
    then pos 1
    else if equal line (codes "0")
    then pos 0
    else negsuc 0

-- `s[strlen (s) - 1]`, where it is the newline, goes. A line that begins with NUL has no such byte.
unfoldable pub chomp : Bytes → Outcome Bytes
chomp [] = fault
chomp (c ∷ []) = ok (if c == b'\n' then [] else c ∷ [])
chomp (c ∷ d ∷ s) = do s' ← chomp (d ∷ s); ok (c ∷ s')

-- The word before the first space, or else before the first tab, and what stands behind that.
unfoldable pub split_option : Bytes → Option (Bytes × Bytes)
unfolding cut
split_option s = elim (cut b' ' s) [ some r ↦ some r | none ↦ cut b'\t' s ]

-- The argument: up to the next space, or the end of the line.
unfoldable pub first_argument : Bytes → Bytes
unfolding cut cut_crlf
first_argument p1 = elim (cut b' ' p1) [
  | some (u, v) ↦ u
  | none ↦ elim (cut_crlf p1) [
    | some u ↦ u
    | none ↦ elim (cut b'\n' p1) [ some (u, v) ↦ u | none ↦ p1 ]
  ]
]

abbrev or_else {ℓ} : {A : Type ℓ} → Option A → A → A
or_else none a = a
or_else (some b) a = b

-- `case oDaemon`
unfoldable pub set_daemon : ℤ → State → State
set_daemon value s =
    if is_minus_one s.config.daemon
    then if is_minus_one value then s else record s {
      config = record s.config { daemon = value };
      debugconf = record s.debugconf { log_stderr = if is_positive value then false else true };
    }
    else s

-- The switch. The argument is `p1`, the rest of the line `rawarg`; a server block is read on from
-- the rest of the file.
unfoldable pub set_option : OpCode → Bytes → Bytes → Bytes → State → Outcome (State × Bytes)
set_option daemon p1 rawarg file s = ok (set_daemon (parse_boolean_value p1) s, file)
set_option gw_ac_id p1 rawarg file s =
    ok (record s { config = record s.config { gw_ac_id = some p1 } }, file)
set_option is_have_wifidog p1 rawarg file s =
    let v = or_else (sscanf_int p1) s.config.is_have_wifidog in
    ok (record s { config = record s.config { is_have_wifidog = v } }, file)
set_option wifidog_path p1 rawarg file s =
    ok (record s { config = record s.config { wifidog_path = p1 } }, file)
set_option gw_ac_interface p1 rawarg file s =
    ok (record s { config = record s.config { gw_ac_interface = some p1 } }, file)
set_option arp_table p1 rawarg file s =
    ok (record s { config = record s.config { arp_table_path = p1 } }, file)
set_option ac_server p1 rawarg file s = parse_ac_server file s
set_option popular_servers p1 rawarg file s = ok (parse_popular_servers rawarg s, file)
set_option check_interval p1 rawarg file s =
    let v = or_else (sscanf_int p1) s.config.check_interval in
    ok (record s { config = record s.config { check_interval = v } }, file)
set_option debug_level p1 rawarg file s =
    let v = or_else (sscanf_int p1) s.config.debuglevel in
    ok (record s { config = record s.config { debuglevel = v } }, file)
set_option _ p1 rawarg file s = exits 255

-- A line with an option and an argument; without an argument nothing is done. An option that
-- begins with `#` is a comment.
unfoldable pub option_line : Bytes → Bytes → Bytes → Bytes → State → Outcome (State × Bytes)
option_line option [] rawarg file s = ok (s, file)
option_line option (c ∷ p1) rawarg file s =
    if starts_with (codes "#") option
    then ok (s, file)
    else set_option (config_parse_token option) (c ∷ p1) rawarg file s

-- A line without a space or a tab is passed over.
unfoldable pub read_text : Option (Bytes × Bytes) → Bytes → State → Outcome (State × Bytes)
read_text none file s = ok (s, file)
read_text (some (option, p1)) file s =
    let rawarg = skip_spaces p1 in option_line option (first_argument rawarg) rawarg file s

unfoldable pub read_line : Bytes → Bytes → State → Outcome (State × Bytes)
read_line line file s = do text ← chomp (until_nul line); read_text (split_option text) file s

-- The loop over the lines of the file.
unfoldable pub read_loop : ℕ → Bytes → State → Outcome State
read_loop zero file s = fault
read_loop (suc fuel) [] s = ok s
read_loop (suc fuel) (c ∷ file) s = do
  let (line, rest) = fgets (max_buf - 1) (c ∷ file)
  (s', rest') ← read_line line rest s
  read_loop fuel rest' s'

-- The file's contents; `none` where it cannot be opened.
unfoldable pub config_read : Option Bytes → State → Outcome State
config_read none s = exits 1
config_read (some file) s = read_loop (length file + 1) file s
