-- ===== src/Main/Prepared.antt =====
-- The start of the program up to the validated configuration.
use smart_ac.Base.{
  ℕ, ◌+◌, ◌<◌, ◌≡◌, ◌≢◌, ◌⊎◌, zero, suc, refl, ap, sym, ◌∙◌, Bool, true, false, Option, none, some,
  List, [], ◌∷◌, Bytes, ltb, if◌then◌else◌, length, arith, Bool-cases, inl, inr,
}
use smart_ac.CommandLine.Getopt.{Opt, getopt}
use smart_ac.CommandLine.Parsed.{placed, parse_commandline-parsed}
use smart_ac.CommandLine.Settled.{all_accepted, settled, given}
use smart_ac.Config.{
  AcServer, State, config_init, config_validate, config_notnull, validate_popular_servers,
  add_popular_server, is_minus_one,
}
use smart_ac.Config.Read.{config_read}
use smart_ac.Config.Read.Grown.{Untouched}
use smart_ac.Config.Read.Keeps.{has_bare_line, config_read-Ends}
use smart_ac.Config.Servers.{IsServers}
use smart_ac.Cstring.{has_nul}
use smart_ac.Cstring.Number.{pos}
use smart_ac.Main.{Arguments, prepare}
use smart_ac.Outcome.{
  Ends-of_EndsUnless, Outcome, ok, exits, ◌>>=◌, within, Ends, returns, fails, Ends->>=, Ends-if,
}
use smart_ac.Store.{Ptr, Cells, null}

-- There is an AC server, and the daemon flag has a value.
pub record IsReady (s : State) : Type 0 where
  pub cells : Cells AcServer
  pub servers : IsServers s cells
  pub some_server : s.config.ac_servers ≢ null
  pub daemon_set : is_minus_one s.config.daemon ≡ false

-- The same before the hardware address is searched for.
pub record IsPrepared (s : State) : Type 0 where
  pub ready : IsReady s
  pub no_mac : s.config.gw_ac_mac_address ≡ none

config_notnull-cases :
    (p : Ptr) (s : State)
    → ((config_notnull p s).missing_parms ≡ true) ⊎ ((p ≢ null) × (config_notnull p s ≡ s))
unfolding config_notnull
config_notnull-cases zero s = inl refl
config_notnull-cases (suc p) s = inr ((λ e. absurd (omega arith)), refl)

-- What the validation of the popular servers leaves alone.
record Kept (s t : State) : Type 0 where
  parms : t.missing_parms ≡ s.missing_parms
  untouched : Untouched s t

validate_popular_servers-Kept :
    (s : State) (xs : List Bytes)
    → s.config.popular_servers ≡ xs
    → Kept s (validate_popular_servers s)
unfolding validate_popular_servers add_popular_server
validate_popular_servers-Kept s [] e = rw e (record {
  parms = refl;
  untouched = record {
    head = refl;
    servers = refl;
    brk = refl;
    daemon = refl;
    debugconf = refl;
    mac = refl;
  };
})
validate_popular_servers-Kept s (x ∷ xs) e = rw e (record {
  parms = refl;
  untouched = record {
    head = refl;
    servers = refl;
    brk = refl;
    daemon = refl;
    debugconf = refl;
    mac = refl;
  };
})

Kept-IsPrepared :
    (s t : State) (cs : Cells AcServer)
    → Kept s t
    → IsServers s cs
    → is_minus_one s.config.daemon ≡ false
    → s.config.gw_ac_mac_address ≡ none
    → s.config.ac_servers ≢ null
    → IsPrepared t
Kept-IsPrepared s t cs kept is daemon_set no_mac ne =
    let u = kept.untouched in
    record {
      ready = record {
        cells = cs;
        servers = record {
          head = u.head ∙ is.head;
          chain = rw u.servers is.chain;
          below = rw u.brk is.below;
          counted = rw u.brk is.counted;
        };
        some_server = λ e. ne (sym u.head ∙ e);
        daemon_set = ap is_minus_one u.daemon ∙ daemon_set;
      };
      no_mac = u.mac ∙ no_mac;
    }

config_validate-Ends :
    (s : State) (cs : Cells AcServer)
    → IsServers s cs
    → is_minus_one s.config.daemon ≡ false
    → s.config.gw_ac_mac_address ≡ none
    → Ends IsPrepared (config_validate s)
unfolding config_validate
config_validate-Ends s cs is daemon_set no_mac = elim (config_notnull-cases s.config.ac_servers s) [
  | inl missing ↦
      let n = config_notnull s.config.ac_servers s in
      let kept = validate_popular_servers-Kept n n.config.popular_servers refl in
      rw (kept.parms ∙ missing) (fails (omega arith))
  | inr (ne, same) ↦
      let kept = validate_popular_servers-Kept s s.config.popular_servers refl in
      rw same (
        Ends-if (validate_popular_servers s).missing_parms (exits 255)
          (ok (validate_popular_servers s)) (λ _. fails (omega arith))
          (λ _.
            returns
              (Kept-IsPrepared s (validate_popular_servers s) cs kept is daemon_set no_mac ne)))
]

-- A file without NUL bytes and without a line at its front in a server block, or none.
abbrev pub IsText : Option Bytes → Type 0
IsText none = Unit
IsText (some file) = (has_nul file ≡ false) × (has_bare_line file ≡ false)

config_read-IsPrepared :
    (o : Option Bytes) (s : State)
    → IsText o
    → IsServers s []
    → is_minus_one s.config.daemon ≡ false
    → s.config.gw_ac_mac_address ≡ none
    → Ends IsPrepared (config_read o s >>= config_validate)
config_read-IsPrepared none s text is daemon_set no_mac =
    unfold config_read in fails {s = 1} (omega arith)
config_read-IsPrepared (some file) s text is daemon_set no_mac =
    Ends->>=
      (Ends-of_EndsUnless (config_read (some file) s) (λ bare. absurd (cc (bare, text.1)))
        (config_read-Ends file s [] text.0 is daemon_set))
      (λ t g.
        config_validate-Ends t g.new g.servers (ap is_minus_one g.daemon ∙ daemon_set)
          (g.mac ∙ no_mac))

settled-daemon_set :
    (os : List Opt) (s : State) → is_minus_one (settled os (config_init s)).config.daemon ≡ false
unfolding config_init
settled-daemon_set os s = elim (Bool-cases (given b'f' os)) [
  | inl e ↦ rw e refl
  | inr e ↦ rw e refl
]

settled-no_mac :
    (os : List Opt) (s : State) → (settled os (config_init s)).config.gw_ac_mac_address ≡ none
unfolding config_init
settled-no_mac os s = refl

settled-IsServers :
    (os : List Opt) (s : State) → 0 < s.brk → IsServers (settled os (config_init s)) []
unfolding config_init
settled-IsServers os s h = record { head = refl; chain = tt; below = tt; counted = h }

abbrev read_and_validate : Arguments → State → Outcome State
read_and_validate a s = config_read (a.files s.config.config_file) s >>= config_validate

options-IsPrepared :
    (b : Bool) (a : Arguments) (x : State × List (Option Bytes))
    → ((path : Bytes) → IsText (a.files path))
    → IsServers x.0 []
    → is_minus_one x.0.config.daemon ≡ false
    → x.0.config.gw_ac_mac_address ≡ none
    → Ends IsPrepared ((if b then within true x else exits 1) >>= (λ x. read_and_validate a x.0))
options-IsPrepared true a x texts is daemon_set no_mac =
    config_read-IsPrepared (a.files x.0.config.config_file) x.0 (texts _) is daemon_set no_mac
options-IsPrepared false a x texts is daemon_set no_mac = fails (omega arith)

-- Where the unset index of `parse_commandline` happens to be below the number of arguments, no file that
-- can be read contains a NUL byte or has a line in a server block that ends at its front, and the address
-- of the next allocation is not null, the start of the program is free of the faults of the model and
-- ends: with an exit as failed, or with a configuration that has a well-formed list of at least one AC
-- server and in which the daemon flag has a value and the hardware address is still to be found.
pub prepare-Ends :
    (a : Arguments) (n : ℕ) (s : State)
    → a.i ≡ pos n
    → n < length (a.argv0 ∷ a.args)
    → ((path : Bytes) → IsText (a.files path))
    → 0 < s.brk
    → Ends IsPrepared (prepare a s)
unfolding prepare
prepare-Ends a n s at lt texts brk =
    let argc = length (a.argv0 ∷ a.args) in
    let inside : ltb n argc ≡ true = ground arith in
    let written : ltb n (argc + 3) ≡ true = ground arith in
    let os = getopt a.permute a.args in
    rw (parse_commandline-parsed a.i a.permute a.argv0 a.args (config_init s), at, written, inside)
      (options-IsPrepared (all_accepted os) a (settled os (config_init s), placed n a.argv0 argc)
        texts (settled-IsServers os s brk) (settled-daemon_set os s) (settled-no_mac os s))
