-- ===== src/Config/Read/Keeps.antt =====
-- How `config_read` ends, and what it leaves of the server list and of `daemon`.
use smart_ac.Base.{
  ℕ, zero, suc, ◌+◌, ◌-◌, ◌<◌, ◌≡◌, refl, ap, ◌∙◌, Bool, Bool-cases, inl, inr, true, false, Option,
  none, some, [], ◌∷◌, ◌++◌, Bytes, length, arith,
}
use smart_ac.Config.{AcServer, State, is_minus_one}
use smart_ac.Config.Block.{Fields, default_fields, block_loop, add_ac_server, parse_ac_server}
use smart_ac.Config.Keywords.{OpCode, config_parse_token}
use smart_ac.Config.Line.{max_buf, fgets}
use smart_ac.Config.Line.Fgets.{length-fgets, has_nul-fgets, until_nul-fgets}
use smart_ac.Config.Read.{
  set_option, option_line, read_text, read_line, read_loop, config_read, chomp, split_option,
}
use smart_ac.Config.Servers.{IsServers}
use smart_ac.Config.Servers.Rotate.{append_server-IsServers}
use smart_ac.Cstring.{codes, starts_with, has_nul, until_nul}
use smart_ac.Outcome.{
  Outcome, ok, exits, fault, ◌>>=◌, Ends, returns, fails, Ends->>=, Ends-mono, Ends-of_Returns,
  EndsUnless, EndsUnless->>=, EndsUnless-imp, EndsUnless-of_Ends,
}
use smart_ac.Config.Read.Bare.{opens_block, opens_option, opens_text, opens_line, bare_in, Bare}
use smart_ac.Store.{Cells}
use smart_ac.Config.Block.Safe.{RestOf, block_loop-Ends}
use smart_ac.Config.Read.Grown.{
  Grown, unchanged, then, Untouched, Grown_of_untouched, here, set_daemon-Untouched,
  parse_popular_servers-Untouched,
}

add_ac_server-Ends :
    (host : Option Bytes) (f : Fields) (s : State) (cs : Cells AcServer)
    → IsServers s cs
    → Ends (Grown s cs) (add_ac_server host f s)
unfolding add_ac_server
add_ac_server-Ends none f s cs is = returns (unchanged s cs is)
add_ac_server-Ends (some host) f s cs is =
    Ends-mono (Ends-of_Returns _ (append_server-IsServers s _ cs is)) λ s' p. record {
      new = _;
      servers = p.0;
      daemon = ap (λ t. t.config.daemon) p.1;
      debugconf = ap (λ t. t.debugconf) p.1;
      mac = ap (λ t. t.config.gw_ac_mac_address) p.1;
    }

-- How reading on in `file`, in a block or not, may go: the state has only grown.
abbrev Goes : Bool → Bytes → State → Cells AcServer → Outcome (State × Bytes) → Type 0
Goes inside file s cs =
    EndsUnless (Bare inside file) (λ (s', rest). Grown s cs s' × RestOf inside file rest)

parse_ac_server-Ends :
    (file : Bytes) (s : State) (cs : Cells AcServer)
    → has_nul file ≡ false
    → IsServers s cs
    → Goes true file s cs (parse_ac_server file s)
unfolding parse_ac_server
parse_ac_server-Ends file s cs nul is =
    EndsUnless->>= (Bare true file) (λ (_, rest). RestOf true file rest)
      (λ (s', rest). Grown s cs s' × RestOf true file rest)
      (block_loop (length file + 1) file default_fields) _
      (block_loop-Ends (length file + 1) file default_fields (omega arith) nul)
      (λ r _ p.
        EndsUnless->>= (Bare true file) (Grown s cs)
          (λ (s', rest). Grown s cs s' × RestOf true file rest) (add_ac_server r.0.host r.0 s) _
          (EndsUnless-of_Ends (Bare true file) (add_ac_server r.0.host r.0 s)
            (add_ac_server-Ends r.0.host r.0 s cs is))
          (λ s' _ g. (g, p)))

chomp-Ends : (b : Bytes) → 0 < length b → Ends (λ _. Unit {0}) (chomp b)
unfolding chomp
chomp-Ends [] h = absurd (omega arith)
chomp-Ends (c ∷ []) h = returns tt
chomp-Ends (c ∷ d ∷ b) h = Ends->>= (chomp-Ends (d ∷ b) (omega arith)) λ _ _. returns tt

module _ (file : Bytes) (s : State) (cs : Cells AcServer) (nul : has_nul file ≡ false)
    (is : IsServers s cs) (set : is_minus_one s.config.daemon ≡ false) where
  Goes-on : (t : State) → Untouched s t → Goes false file s cs (ok (t, file))
  Goes-on t u = (Grown_of_untouched s t cs u is, ((omega arith, nul), λ bare. bare))

  set_option-Ends :
      (o : OpCode) (p1 rawarg : Bytes)
      → Goes (opens_block o) file s cs (set_option o p1 rawarg file s)
  unfolding set_option
  set_option-Ends OpCode.daemon p1 rawarg = Goes-on _ (set_daemon-Untouched _ s set)
  set_option-Ends OpCode.ac_server p1 rawarg = parse_ac_server-Ends file s cs nul is
  set_option-Ends OpCode.popular_servers p1 rawarg =
      Goes-on _ (parse_popular_servers-Untouched rawarg s)
  set_option-Ends OpCode.gw_ac_id p1 rawarg = Goes-on _ (record {
    head = refl;
    servers = refl;
    brk = refl;
    daemon = refl;
    debugconf = refl;
    mac = refl;
  })
  set_option-Ends OpCode.is_have_wifidog p1 rawarg = Goes-on _ (record {
    head = refl;
    servers = refl;
    brk = refl;
    daemon = refl;
    debugconf = refl;
    mac = refl;
  })
  set_option-Ends OpCode.wifidog_path p1 rawarg = Goes-on _ (record {
    head = refl;
    servers = refl;
    brk = refl;
    daemon = refl;
    debugconf = refl;
    mac = refl;
  })
  set_option-Ends OpCode.gw_ac_interface p1 rawarg = Goes-on _ (record {
    head = refl;
    servers = refl;
    brk = refl;
    daemon = refl;
    debugconf = refl;
    mac = refl;
  })
  set_option-Ends OpCode.arp_table p1 rawarg = Goes-on _ (record {
    head = refl;
    servers = refl;
    brk = refl;
    daemon = refl;
    debugconf = refl;
    mac = refl;
  })
  set_option-Ends OpCode.check_interval p1 rawarg = Goes-on _ (record {
    head = refl;
    servers = refl;
    brk = refl;
    daemon = refl;
    debugconf = refl;
    mac = refl;
  })
  set_option-Ends OpCode.debug_level p1 rawarg = Goes-on _ (record {
    head = refl;
    servers = refl;
    brk = refl;
    daemon = refl;
    debugconf = refl;
    mac = refl;
  })
  set_option-Ends _ p1 rawarg = λ e. absurd (omega (arith, e))

  option_line-Ends :
      (option arg rawarg : Bytes)
      → Goes (opens_option option arg) file s cs (option_line option arg rawarg file s)
  unfolding option_line
  option_line-Ends option [] rawarg = Goes-on s (here s)
  option_line-Ends option (c ∷ p1) rawarg = elim (Bool-cases (starts_with (codes "#") option)) [
    | inl e ↦ rw e (Goes-on s (here s))
    | inr e ↦ rw e (set_option-Ends (config_parse_token option) (c ∷ p1) rawarg)
  ]

  read_text-Ends : (o : Option (Bytes × Bytes)) → Goes (opens_text o) file s cs (read_text o file s)
  unfolding read_text
  read_text-Ends none = Goes-on s (here s)
  read_text-Ends (some (option, p1)) = option_line-Ends option _ _

  chomped :
      (text : Outcome Bytes)
      → Ends (λ _. Unit {0}) text
      → Goes (opens_line text) file s cs (text >>= λ t. read_text (split_option t) file s)
  chomped (ok text) (returns e) = read_text-Ends (split_option text)
  chomped (exits n) (fails e) = e
  chomped fault ends = elim ends [ ]

  read_line-Ends :
      (line : Bytes)
      → 0 < length (until_nul line)
      → Goes (opens_line (chomp (until_nul line))) file s cs (read_line line file s)
  unfolding read_line
  read_line-Ends line h = chomped (chomp (until_nul line)) (chomp-Ends (until_nul line) h)

Bare-line :
    (c : ℕ) (file : Bytes)
    → Bare
        (opens_line (chomp (until_nul (fgets (max_buf - 1) (c ∷ file)).0)))
        (fgets (max_buf - 1) (c ∷ file)).1
    → Bare false (c ∷ file)
unfolding bare_in
Bare-line c file later zero h = absurd (omega arith)
Bare-line c file later (suc k) h =
    let shorter = length-fgets (max_buf - 2) c file in later k (omega arith)

read_loop-Ends :
    (fuel : ℕ) (file : Bytes) (s : State) (cs : Cells AcServer)
    → length file < fuel
    → has_nul file ≡ false
    → IsServers s cs
    → is_minus_one s.config.daemon ≡ false
    → EndsUnless (Bare false file) (Grown s cs) (read_loop fuel file s)
unfolding read_loop
read_loop-Ends zero file s cs h nul is set = absurd (omega arith)
read_loop-Ends (suc fuel) [] s cs h nul is set = unchanged s cs is
read_loop-Ends (suc fuel) (c ∷ file) s cs h nul is set =
    let line = (fgets (max_buf - 1) (c ∷ file)).0 in
    let rest = (fgets (max_buf - 1) (c ∷ file)).1 in
    let inside = opens_line (chomp (until_nul line)) in
    let shorter = length-fgets (max_buf - 2) c file in
    let rest_nul = (has_nul-fgets (max_buf - 1) (c ∷ file) nul).1 in
    EndsUnless->>= (Bare false (c ∷ file)) (λ (s', r). Grown s cs s' × RestOf inside rest r)
      (Grown s cs) (read_line line rest s) _
      (EndsUnless-imp (Bare inside rest) (Bare false (c ∷ file))
        (λ (s', r). Grown s cs s' × RestOf inside rest r)
        (λ (s', r). Grown s cs s' × RestOf inside rest r) (read_line line rest s)
        (read_line-Ends rest s cs rest_nul is set line (until_nul-fgets (max_buf - 2) c file nul))
        (Bare-line c file) (λ r p. p))
      (λ r _ p.
        EndsUnless-imp (Bare false r.1) (Bare false (c ∷ file)) (Grown r.0 (cs ++ p.0.new))
          (Grown s cs) (read_loop fuel r.1 r.0)
          (read_loop-Ends fuel r.1 r.0 (cs ++ p.0.new) (omega (arith, p.1.0.0)) p.1.0.1 p.0.servers
            (ap is_minus_one p.0.daemon ∙ set))
          (λ bare. Bare-line c file (p.1.1 bare)) (λ t g. then s r.0 t cs p.0 g))

-- Whether a line in one of the server blocks of the file ends at its front: an empty line, or one with
-- nothing but a comment, that no blank precedes.
unfoldable pub has_bare_line : Bytes → Bool
unfolding bare_in
has_bare_line file = bare_in (length file + 1) false file

-- Reading a file with no NUL byte, in a state with a well-formed server list and where `daemon` has a
-- value, never runs on: it ends the process as failed, or does something undefined, and then a line in
-- one of the file's server blocks ends at its front, or it returns with the servers that were there still
-- in front of the list, and with `daemon` and the whole configuration of the log as they were.
pub config_read-Ends :
    (file : Bytes) (s : State) (cs : Cells AcServer)
    → has_nul file ≡ false
    → IsServers s cs
    → is_minus_one s.config.daemon ≡ false
    → EndsUnless (has_bare_line file ≡ true) (Grown s cs) (config_read (some file) s)
unfolding config_read has_bare_line
config_read-Ends file s cs nul is set =
    EndsUnless-imp (Bare false file) (has_bare_line file ≡ true) (Grown s cs) (Grown s cs) _
      (read_loop-Ends (length file + 1) file s cs (omega arith) nul is set)
      (λ bare. bare (length file + 1) (omega arith)) (λ t g. g)
