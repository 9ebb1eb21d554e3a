-- ===== src/Config/Block.antt =====
-- `parse_ac_server`: the lines between `SmartAcServer {` and `}`.
pub mod Safe
pub mod Setting
pub mod RoundTrip
use smart_ac.Base.{
  ℕ, zero, suc, ◌+◌, ◌-◌, Bool, true, false, Option, none, some, [], ◌∷◌, ◌++◌, Bytes,
  if◌then◌else◌, length, drop,
}
use smart_ac.Config.{State}
use smart_ac.Config.Keywords.{
  OpCode, ac_serv_hostname, ac_serv_http_port, ac_serv_ping_path, ac_serv_result_path,
  config_parse_token,
}
use smart_ac.Config.Line.{
  max_buf, fgets, has_char, cut, skip_blanks, split_word, erase_trailing_blanks,
}
use smart_ac.Config.Servers.{append_server}
use smart_ac.Cstring.{codes, until_nul}
use smart_ac.Cstring.Number.{ℤ, pos, atoi}
use smart_ac.Outcome.{Outcome, ok, exits, fault, ◌>>=◌}

-- The local variables that the lines of a block set.
pub record Fields : Type 0 where
  pub host : Option Bytes
  pub ping_path : Bytes
  pub result_path : Bytes
  pub http_port : ℤ

abbrev pub default_fields : Fields
default_fields = record {
  host = none;
  ping_path = codes "/smartac/ping?";
  result_path = codes "/smartac/result?";
  http_port = pos 8080;
}

-- The line is cut where `strchr` found an end, and the blanks before it go; else the next is tried.
abbrev pub end_at : Option (Bytes × Bytes) → Bytes → Bytes
end_at none otherwise = otherwise
end_at (some (u, v)) otherwise = erase_trailing_blanks u ++ 0 ∷ v

-- A comment, a carriage return or the newline ends the line; the blanks before it go too.
unfoldable pub end_line : Bytes → Bytes
end_line p1 = end_at (cut b'#' p1) (end_at (cut b'\r' p1) (end_at (cut b'\n' p1) p1))

-- The switch; any other option ends the process.
unfoldable pub set_field : OpCode → Bytes → Fields → Outcome Fields
set_field ac_serv_hostname p2 f = ok (record f { host = some p2 })
set_field ac_serv_ping_path p2 f = ok (record f { ping_path = p2 })
set_field ac_serv_result_path p2 f = ok (record f { result_path = p2 })
set_field ac_serv_http_port p2 f = ok (record f { http_port = atoi p2 })
set_field _ p2 f = exits 255

-- The first word is the option; its argument begins behind the byte that ends the word.
unfoldable pub parse_field : Bytes → Fields → Outcome Fields
parse_field p1 f =
    let (word, rest) = split_word p1 in
    set_field (config_parse_token word) (until_nul (skip_blanks (drop 1 rest))) f

-- `if (strlen (p1) > 0)`
unfoldable pub parse_text : Bytes → Bytes → Fields → Outcome Fields
parse_text [] p1 f = ok f
parse_text (_ ∷ _) p1 f = parse_field p1 f

-- Whether `strchr` found an end, and at the front of the buffer; else the next is tried.
abbrev pub at_front : Option (Bytes × Bytes) → Bool → Bool
at_front none otherwise = otherwise
at_front (some ([], v)) otherwise = true
at_front (some (c ∷ u, v)) otherwise = false

-- Whether the line ends at its front. The loop over the blanks begins at the byte before the end, which is
-- in front of the buffer then.
unfoldable pub looks_before : Bytes → Bool
looks_before line =
    at_front (cut b'#' line) (at_front (cut b'\r' line) (at_front (cut b'\n' line) false))

unfoldable pub block_line : Bytes → Fields → Outcome Fields
block_line line f =
    let p1 = end_line (skip_blanks line) in
    if looks_before line then fault else parse_text (until_nul p1) p1 f

-- The parsing loop, up to the line with the brace or the end of the file; the rest of the file is
-- returned.
unfoldable pub block_loop : ℕ → Bytes → Fields → Outcome (Fields × Bytes)
block_loop zero s f = fault
block_loop (suc fuel) [] f = ok (f, [])
block_loop (suc fuel) (c ∷ s) f =
    let (line, rest) = fgets (max_buf - 2) (c ∷ s) in
    let next = (do f' ← block_line line f; block_loop fuel rest f') in
    if has_char b'}' line then ok (f, rest) else next

-- Only a block with a host gives a server.
unfoldable pub add_ac_server : Option Bytes → Fields → State → Outcome State
add_ac_server none f s = ok s
add_ac_server (some host) f s =
    append_server
      (record {
        hostname = host;
        ping_path = f.ping_path;
        result_path = f.result_path;
        port = f.http_port;
        last_ip = none;
      })
      s

-- The server, and what is left of the file.
unfoldable pub parse_ac_server : Bytes → State → Outcome (State × Bytes)
parse_ac_server file s = do
  (f, rest) ← block_loop (length file + 1) file default_fields
  s' ← add_ac_server f.host f s
  ok (s', rest)
