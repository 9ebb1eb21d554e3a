-- ===== src/Config/Block/RoundTrip.antt =====
-- `parse_ac_server` on a server block that is written out.
use smart_ac.Base.{
  ℕ, suc, ◌+◌, ◌-◌, ◌<◌, ◌≡◌, refl, ap, ◌∙◌, true, false, none, some, [], ◌∷◌, ◌++◌, Bytes, length,
  length-append, arith,
}
use smart_ac.Config.{AcServer, State}
use smart_ac.Config.Block.{
  Fields, default_fields, set_field, block_line, block_loop, add_ac_server, parse_ac_server,
}
use smart_ac.Config.Keywords.{config_parse_token}
use smart_ac.Config.Line.{max_buf, fgets, has_char}
use smart_ac.Config.Line.Fgets.{no_newline, fgets-line}
use smart_ac.Cstring.{codes}
use smart_ac.Outcome.{ok, ◌>>=◌, Returns, Returns->>=}
use smart_ac.Config.Block.Setting.{plain, has_char-plain, option_line, block_line-option}
use smart_ac.Config.Keywords.{find_keyword}
use smart_ac.Config.Servers.{append_server, IsServers}
use smart_ac.Config.Servers.Rotate.{Appended, append_server-IsServers}
use smart_ac.Store.{Cells}
use smart_ac.Cstring.{equal_ignoring_case, lower}
use smart_ac.Cstring.Number.{atoi}

no_newline-plain : (v : Bytes) → plain v ≡ true → no_newline v ≡ true
unfolding no_newline
no_newline-plain [] h = refl
no_newline-plain (c ∷ v) h = ground (arith, no_newline-plain v)

no_newline-option :
    (w v : Bytes) → plain w ≡ true → plain v ≡ true → no_newline (option_line w v) ≡ true
unfolding no_newline
no_newline-option [] v h h' = ground (arith, no_newline-plain v)
no_newline-option (c ∷ w) v h h' = ground (arith, no_newline-option w v)

has_char-option :
    (w v : Bytes)
    → plain w ≡ true
    → plain v ≡ true
    → has_char b'}' (option_line w v ++ b'\n' ∷ []) ≡ false
unfolding has_char
has_char-option [] v h h' = has_char-plain v (b'\n' ∷ []) h'
has_char-option (c ∷ w) v h h' = ground (arith, has_char-option w v)

block_loop-next :
    (k : ℕ) (s line rest : Bytes) (f : Fields)
    → 0 < length s
    → fgets (max_buf - 2) s ≡ (line, rest)
    → has_char b'}' line ≡ false
    → block_loop (suc k) s f ≡ (block_line line f >>= block_loop k rest)
unfolding block_loop
block_loop-next k [] line rest f h e out = absurd (omega arith)
block_loop-next k (c ∷ s) line rest f h e out = rw (e, out) refl

-- An option's value that the reader of lines leaves whole.
pub record IsValue (v : Bytes) : Type 0 where
  pub is_plain : plain v ≡ true
  pub nonempty : 0 < length v
  pub short : length v < 40000

-- One line more of the block.
block_loop-option :
    (k : ℕ) (w v s : Bytes) (f : Fields)
    → plain w ≡ true
    → 0 < length w
    → length w < 100
    → IsValue v
    → block_loop (suc k) (option_line w v ++ b'\n' ∷ s) f
      ≡ (set_field (config_parse_token w) v f >>= block_loop k s)
block_loop-option k w v s f h named short is =
    block_loop-next k (option_line w v ++ b'\n' ∷ s) (option_line w v ++ b'\n' ∷ []) s f
      (omega (arith, length-append (option_line w v) (b'\n' ∷ s)))
      (fgets-line (max_buf - 2) (option_line w v) s (no_newline-option w v h is.is_plain)
        (omega (arith, length-append w (b' ' ∷ v), is.short)))
      (has_char-option w v h is.is_plain)
    ∙ ap (λ r. r >>= block_loop k s) (block_line-option w v f h named is.is_plain is.nonempty)

-- What a block sets.
pub record Block : Type 0 where
  pub hostname : Bytes
  pub http_port : Bytes
  pub ping_path : Bytes
  pub result_path : Bytes

abbrev setting : Bytes → Bytes → Bytes → Bytes
setting w v s = option_line w v ++ b'\n' ∷ s

-- The block as it stands in a file, up to the brace, and what follows it.
abbrev pub block_text : Block → Bytes → Bytes
block_text b rest = setting (codes "Hostname") b.hostname (
    setting (codes "HttpPort") b.http_port (
      setting (codes "PingPath") b.ping_path
        (setting (codes "ResultPath") b.result_path (codes "}\n" ++ rest))))

pub record IsBlock (b : Block) : Type 0 where
  pub hostname : IsValue b.hostname
  pub http_port : IsValue b.http_port
  pub ping_path : IsValue b.ping_path
  pub result_path : IsValue b.result_path

abbrev pub fields_of : Block → Fields
fields_of b = record {
  host = some b.hostname;
  ping_path = b.ping_path;
  result_path = b.result_path;
  http_port = atoi b.http_port;
}

block_loop-end :
    (k : ℕ) (rest : Bytes) (f : Fields) → block_loop (suc k) (codes "}\n" ++ rest) f ≡ ok (f, rest)
unfolding block_loop fgets has_char
block_loop-end k rest f = refl

-- What each option's name sets.
set_option-eq :
    (v : Bytes) (f : Fields)
    → (set_field (config_parse_token (codes "Hostname")) v f ≡ ok (record f { host = some v }))
      × (set_field (config_parse_token (codes "HttpPort")) v f
          ≡ ok (record f { http_port = atoi v }))
      × (set_field (config_parse_token (codes "PingPath")) v f ≡ ok (record f { ping_path = v }))
      × (set_field (config_parse_token (codes "ResultPath")) v f
          ≡ ok (record f { result_path = v }))
unfolding set_field config_parse_token find_keyword equal_ignoring_case lower
set_option-eq v f = (refl, refl, refl, refl)

block_loop-block :
    (k : ℕ) (b : Block) (rest : Bytes)
    → IsBlock b
    → block_loop (suc (suc (suc (suc (suc k))))) (block_text b rest) default_fields
      ≡ ok (fields_of b, rest)
block_loop-block k b rest is =
    rw
      (
        block_loop-option (suc (suc (suc (suc k)))) (codes "Hostname") b.hostname _ default_fields
            refl (ground arith) (ground arith) is.hostname,
        (set_option-eq b.hostname default_fields).0,
        block_loop-option (suc (suc (suc k))) (codes "HttpPort") b.http_port _
            (record default_fields { host = some b.hostname }) refl (ground arith) (ground arith)
            is.http_port,
        (set_option-eq b.http_port (record default_fields { host = some b.hostname })).1,
        block_loop-option (suc (suc k)) (codes "PingPath") b.ping_path _
            (record default_fields { host = some b.hostname; http_port = atoi b.http_port }) refl
            (ground arith) (ground arith) is.ping_path,
        (set_option-eq b.ping_path
            (record default_fields { host = some b.hostname; http_port = atoi b.http_port })).2,
        block_loop-option (suc k) (codes "ResultPath") b.result_path _
            (record (fields_of b) { result_path = default_fields.result_path }) refl (ground arith)
            (ground arith) is.result_path,
        (set_option-eq b.result_path
            (record (fields_of b) { result_path = default_fields.result_path })).3,
        block_loop-end k rest (fields_of b),
      )
      refl

-- The server that a block describes.
abbrev pub server_of : Block → AcServer
server_of b = record {
  hostname = b.hostname;
  ping_path = b.ping_path;
  result_path = b.result_path;
  port = atoi b.http_port;
  last_ip = none;
}

parse_ac_server-append :
    (b : Block) (rest : Bytes) (s : State)
    → IsBlock b
    → parse_ac_server (block_text b rest) s
      ≡ (append_server (server_of b) s >>= λ s'. ok (s', rest))
unfolding parse_ac_server add_ac_server
parse_ac_server-append b rest s is =
    let size = length (block_text b rest) in
    let fuel : size + 1 ≡ suc (suc (suc (suc (suc (size - 4))))) = omega (
      arith,
      length-append (option_line (codes "Hostname") b.hostname) (
          b'\n'
          ∷ setting (codes "HttpPort") b.http_port (
              setting (codes "PingPath") b.ping_path
                (setting (codes "ResultPath") b.result_path (codes "}\n" ++ rest)))),
    ) in
    rw (fuel, block_loop-block (size - 4) b rest is) refl

abbrev AppendedTo : AcServer → Cells AcServer → State → State → Type 0
AppendedTo v cs s s' = IsServers s' (cs ++ (s.brk, v) ∷ []) × Appended s s'

-- The server stands behind the others, only the list is written, and `left` is left of the file.
abbrev pub Parsed : AcServer → Cells AcServer → State → Bytes → State × Bytes → Type 0
Parsed v cs s left (s', rest) = IsServers s' (cs ++ (s.brk, v) ∷ []) × Appended s s' × (rest ≡ left)

-- A block whose four values are not empty, hold no blank, NUL, newline, carriage return, `#` or `}`, and
-- are shorter than 40000 bytes, is read back in full, in a state with a well-formed list of servers:
-- the server that it describes, with the number that its port is read as, stands behind those of the
-- list, nothing else of the state is written, and the rest of the file is left.
pub parse_ac_server-block :
    (b : Block) (rest : Bytes) (s : State) (cs : Cells AcServer)
    → IsBlock b
    → IsServers s cs
    → Returns (Parsed (server_of b) cs s rest) (parse_ac_server (block_text b rest) s)
parse_ac_server-block b rest s cs is servers = rw (parse_ac_server-append b rest s is) (
    Returns->>= (AppendedTo (server_of b) cs s) (Parsed (server_of b) cs s rest)
      (append_server (server_of b) s) _ (append_server-IsServers s (server_of b) cs servers)
      (λ s' (is', appended). (is', appended, refl)))
