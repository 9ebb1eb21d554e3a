-- ===== src/CommandLine/Carried.antt =====
-- A command line that writes settings down, from its bytes to the state.
use smart_ac.Base.{
  ℕ, ◌+◌, ◌<◌, ◌≡◌, refl, ap, sym, ◌∙◌, Bool, true, List, [], ◌∷◌, Bytes, ltb, length, arith,
}
use smart_ac.CommandLine.{parse_commandline}
use smart_ac.CommandLine.Parsed.{placed, parse_commandline-parsed}
use smart_ac.CommandLine.Settings.{
  Setting, config_file, debug_level, arp_table, foreground, log_syslog, usage, version, as_opt,
  as_opts, command_line, getopt-command_line,
}
use smart_ac.CommandLine.Settled.{all_accepted, settled, settled-cons}
use smart_ac.Config.{State}
use smart_ac.Cstring.Number.{pos, atoi}
use smart_ac.Outcome.{ok}

-- What a setting asks for.
abbrev pub carry_out : Setting → State → State
carry_out (config_file path) s = record s { config = record s.config { config_file = path } }
carry_out (debug_level level) s = record s {
  debugconf = record s.debugconf { debuglevel = atoi level };
}
carry_out (arp_table path) s = record s { config = record s.config { arp_table_path = path } }
carry_out foreground s = record s {
  config = record s.config { daemon = pos 0 };
  debugconf = record s.debugconf { log_stderr = true };
}
carry_out log_syslog s = record s { debugconf = record s.debugconf { log_syslog = true } }
carry_out usage s = s
carry_out version s = s

abbrev pub carry_out_all : List Setting → State → State
carry_out_all [] s = s
carry_out_all (x ∷ xs) s = carry_out_all xs (carry_out x s)

-- Neither the usage nor the version is asked for, after which the process ends.
abbrev pub Runs : List Setting → Type 0
Runs [] = Unit
Runs (usage ∷ xs) = ⊥
Runs (version ∷ xs) = ⊥
Runs (_ ∷ xs) = Runs xs

settled-one :
    (x : Setting) (xs : List Setting) (s : State)
    → Runs (x ∷ xs)
    → (settled (as_opt x ∷ []) s ≡ carry_out x s) × Runs xs
settled-one (config_file path) xs s r = (refl, r)
settled-one (debug_level level) xs s r = (refl, r)
settled-one (arp_table path) xs s r = (refl, r)
settled-one foreground xs s r = (refl, r)
settled-one log_syslog xs s r = (refl, r)
settled-one usage xs s r = absurd r
settled-one version xs s r = absurd r

settled-carry_out :
    (xs : List Setting) (s : State) → Runs xs → settled (as_opts xs) s ≡ carry_out_all xs s
settled-carry_out [] s r = refl
settled-carry_out (x ∷ xs) s r =
    let (one, more) = settled-one x xs s r in
    sym (settled-cons (as_opt x) (as_opts xs) s)
    ∙ ap (settled (as_opts xs)) one
    ∙ settled-carry_out xs (carry_out x s) more

all_accepted-Runs : (xs : List Setting) → Runs xs → all_accepted (as_opts xs) ≡ true
all_accepted-Runs [] r = refl
all_accepted-Runs (config_file path ∷ xs) r = all_accepted-Runs xs r
all_accepted-Runs (debug_level level ∷ xs) r = all_accepted-Runs xs r
all_accepted-Runs (arp_table path ∷ xs) r = all_accepted-Runs xs r
all_accepted-Runs (foreground ∷ xs) r = all_accepted-Runs xs r
all_accepted-Runs (log_syslog ∷ xs) r = all_accepted-Runs xs r
all_accepted-Runs (usage ∷ xs) r = absurd r
all_accepted-Runs (version ∷ xs) r = absurd r

-- Where the unset index happens to be below the number of arguments, a command line that writes settings
-- down, each argument joined to its letter or behind it, and ends them by `--`, has them all carried out
-- in their order, unless it asks for the usage or the version; operands behind them do nothing.
pub parse_commandline-carry_out :
    (i : ℕ) (permute joined : Bool) (argv0 : Bytes) (xs : List Setting) (operands : List Bytes)
    (s : State)
    → Runs xs
    → i < length (argv0 ∷ command_line joined xs operands)
    → parse_commandline (pos i) permute argv0 (command_line joined xs operands) s
      ≡ ok (carry_out_all xs s, placed i argv0 (length (argv0 ∷ command_line joined xs operands)))
parse_commandline-carry_out i permute joined argv0 xs operands s r lt =
    let args = command_line joined xs operands in
    let argc = length (argv0 ∷ args) in
    let inside : ltb i argc ≡ true = ground arith in
    let written : ltb i (argc + 3) ≡ true = ground arith in
    parse_commandline-parsed (pos i) permute argv0 args s
    ∙ rw
        (
          written,
          getopt-command_line permute joined xs operands,
          all_accepted-Runs xs r,
          inside,
          settled-carry_out xs s r,
        )
        refl
