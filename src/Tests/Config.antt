-- ===== src/Tests/Config.antt =====
-- The configuration code on concrete files.
use smart_ac.Base.{
  length, ◌<◌, ◌≡◌, refl, true, false, List, Option, some, none, [], ◌∷◌, arith, Bytes,
}
use smart_ac.Config.{State, config_init}
use smart_ac.Config.Read.{
  config_read, read_loop, read_line, chomp, split_option, read_text, first_argument, option_line,
  set_option, parse_boolean_value, set_daemon,
}
use smart_ac.Cstring.{equal_ignoring_case, lower, codes, until_nul, starts_with, has_nul}
use smart_ac.Cstring.Number.{ℤ, pos, sscanf_int, atoi}
use smart_ac.Outcome.{Outcome, ok, ◌>>=◌, Returns, EndsUnless}
use smart_ac.Store.{load, write, last_node}
use smart_ac.Config.Popular.{add_hostname, trim_hostname, parse_popular_servers}
use smart_ac.Config.Line.{
  cut_crlf, fgets, has_char, cut, skip_spaces, skip_blanks, split_word, erase_trailing_blanks,
}
use smart_ac.Config.Block.{
  parse_ac_server, block_loop, block_line, looks_before, end_line, parse_text, parse_field,
  set_field, add_ac_server,
}
use smart_ac.Config.Block.RoundTrip.{
  Parsed, server_of, Block, IsBlock, IsValue, block_text, parse_ac_server-block,
}
use smart_ac.Config.Block.Setting.{plain}
use smart_ac.Config.Keywords.{config_parse_token, find_keyword}
use smart_ac.Config.Servers.{append_server, IsServers}
use smart_ac.Config.Read.Grown.{Grown}
use smart_ac.Config.Read.Keeps.{has_bare_line, config_read-Ends}
use smart_ac.Config.Read.Bare.{bare_in}
use smart_ac.Config.Popular.RoundTrip.{Entry, with_popular, parse_popular_servers-join}

abbrev pub blank : State
blank = record {
  config = record {
    config_file = [];
    ac_servers = 0;
    check_interval = pos 0;
    arp_table_path = [];
    gw_ac_id = none;
    gw_ac_interface = none;
    gw_ac_ip_address = none;
    gw_ac_mac_address = none;
    is_have_wifidog = pos 0;
    wifidog_path = [];
    daemon = pos 0;
    debuglevel = pos 0;
    syslog_facility = 0;
    popular_servers = [];
  };
  debugconf = record {
    debuglevel = pos 6;
    log_stderr = true;
    log_syslog = false;
    syslog_facility = 0;
  };
  missing_parms = false;
  servers = λ _. none;
  brk = 1;
}

abbrev pub file : Bytes
file =
    codes
      "# a comment\nGatewayAcId  ab12\nSmartAcServer {\n  Hostname  h.com # x\n \n HttpPort 80\n}\nCheckInterval 60\nDaemon 0\nPopularServers a.com, b.com\n"

-- What the file above leaves in the configuration, with its first server.
abbrev Seen : Type 0
Seen = Option Bytes × ℤ × Bytes × ℤ × List Bytes × ℤ

read_file : Outcome Seen
unfolding erase_trailing_blanks parse_field config_read read_loop fgets read_line until_nul chomp
    split_option read_text skip_spaces first_argument option_line set_option parse_boolean_value
    set_daemon parse_popular_servers add_hostname trim_hostname parse_ac_server block_loop
    block_line skip_blanks looks_before end_line parse_text split_word config_parse_token set_field
    add_ac_server append_server sscanf_int atoi cut has_char starts_with last_node config_init load
    write
read_file = do
  s ← config_read (some file) (config_init blank)
  n ← load s.servers s.config.ac_servers
  ok (
    s.config.gw_ac_id, s.config.check_interval, n.value.hostname, n.value.port,
    s.config.popular_servers, s.config.daemon,
  )

read_file_lem :
    read_file
    ≡ ok (
      some (codes "ab12"),
      pos 60,
      codes "h.com",
      pos 80,
      codes "b.com" ∷ codes "a.com" ∷ [],
      pos 1,
    )
unfolding read_file
read_file_lem = refl

blank-IsServers : IsServers (config_init blank) []
unfolding config_init
blank-IsServers = record { head = refl; chain = tt; below = tt; counted = omega arith }

config_read-Ends_example :
    EndsUnless
      (has_bare_line file ≡ true)
      (Grown (config_init blank) [])
      (config_read (some file) (config_init blank))
unfolding config_init has_nul
config_read-Ends_example = config_read-Ends file (config_init blank) [] refl blank-IsServers refl

pub file-has_bare_line : has_bare_line file ≡ false
unfolding has_bare_line bare_in fgets chomp until_nul split_option first_argument skip_spaces
    config_parse_token find_keyword equal_ignoring_case lower starts_with has_char looks_before cut
    cut_crlf
file-has_bare_line = refl

-- An empty line in a server block, and the read of its byte in front of the buffer.
abbrev bare_file : Bytes
bare_file = codes "SmartAcServer {\n Hostname h.com\n\n}\n"

bare_file_lem : has_bare_line bare_file ≡ true
unfolding has_bare_line bare_in fgets chomp until_nul split_option first_argument skip_spaces
    config_parse_token find_keyword equal_ignoring_case lower starts_with has_char looks_before cut
    cut_crlf
bare_file_lem = refl

-- "  a.com,b.com"
abbrev a_com : Entry
a_com = record { spaces = 2; initial = b'a'; others = codes ".com"; host_bytes = refl }

abbrev b_com : Entry
b_com = record { spaces = 0; initial = b'b'; others = codes ".com"; host_bytes = refl }

parse_popular_servers-join_example :
    parse_popular_servers (codes "  a.com,b.com") blank
    ≡ with_popular (codes "b.com" ∷ codes "a.com" ∷ []) blank
parse_popular_servers-join_example = parse_popular_servers-join a_com (b_com ∷ []) blank

abbrev block : Block
block = record {
  hostname = codes "h.com";
  http_port = codes "80";
  ping_path = codes "/ping?";
  result_path = codes "/result?";
}

value : (v : Bytes) → plain v ≡ true → 0 < length v → length v < 40000 → IsValue v
value v p n s = record { is_plain = p; nonempty = n; short = s }

block-IsBlock : IsBlock block
block-IsBlock = record {
  hostname = value (codes "h.com") refl (ground arith) (ground arith);
  http_port = value (codes "80") refl (ground arith) (ground arith);
  ping_path = value (codes "/ping?") refl (ground arith) (ground arith);
  result_path = value (codes "/result?") refl (ground arith) (ground arith);
}

parse_ac_server-block_example :
    Returns
      (Parsed (server_of block) [] blank (codes "Daemon 1\n"))
      (parse_ac_server (block_text block (codes "Daemon 1\n")) blank)
parse_ac_server-block_example =
    parse_ac_server-block block (codes "Daemon 1\n") blank [] block-IsBlock
      (record { head = refl; chain = tt; below = tt; counted = ground arith })
