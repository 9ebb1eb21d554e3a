-- ===== src/CommandLine.antt =====
-- smartac_commandline.c: `parse_commandline`, and the `getopt` of the C library that it loops over.
pub mod Getopt
pub mod Settings
pub mod Settled
pub mod Parsed
pub mod Carried
use smart_ac.Base.{
  ℕ, ◌+◌, Bool, true, false, Option, none, some, List, [], ◌∷◌, ◌++◌, Bytes, ltb, length, take,
  drop, replicate, ◌==◌, if◌then◌else◌,
}
use smart_ac.CommandLine.Getopt.{Opt, getopt}
use smart_ac.Config.{State}
use smart_ac.Cstring.Number.{ℤ, pos, negsuc, atoi}
use smart_ac.Outcome.{Outcome, ok, exits, fault, ◌>>=◌, within}

-- What an option does, by the letter that `getopt` returns: the `switch`. The result says whether the
-- option is to be left out of `restartargv`.
module _ (s : State) where
  abbrev pub set_config_file : Option Bytes → State
  set_config_file none = s
  set_config_file (some optarg) = record s { config = record s.config { config_file = optarg } }

  abbrev pub set_foreground : State
  set_foreground = record s {
    config = record s.config { daemon = pos 0 };
    debugconf = record s.debugconf { log_stderr = true };
  }

  abbrev pub set_debuglevel : Option Bytes → State
  set_debuglevel none = s
  set_debuglevel (some optarg) = record s {
    debugconf = record s.debugconf { debuglevel = atoi optarg };
  }

  abbrev pub set_log_syslog : State
  set_log_syslog = record s { debugconf = record s.debugconf { log_syslog = true } }

  abbrev pub set_arp_table : Option Bytes → Outcome (Bool × State)
  set_arp_table none = exits 1
  set_arp_table (some optarg) =
      ok (false, record s { config = record s.config { arp_table_path = optarg } })

  -- `-h`, `-v` and what `getopt` does not know print a text and end the process.
  unfoldable pub handle_option : Opt → Outcome (Bool × State)
  handle_option o =
      if o.letter == b'c'
      then ok (false, set_config_file o.optarg)
      else if o.letter == b'f'
      then ok (true, set_foreground)
      else if o.letter == b'd'
      then ok (false, set_debuglevel o.optarg)
      else if o.letter == b's'
      then ok (false, set_log_syslog)
      else if o.letter == b'a'
      then set_arp_table o.optarg
      else exits 1

-- `while (-1 != (c = getopt (…)))`; what is done with `skiponrestart` is commented out.
unfoldable pub option_loop : List Opt → State → Outcome State
option_loop [] s = ok s
option_loop (o ∷ opts) s = do (skiponrestart, s) ← handle_option s o; option_loop opts s

-- `restartargv[i++] = p`
unfoldable pub put_arg : ℤ → Option Bytes → List (Option Bytes) → Outcome (ℤ × List (Option Bytes))
put_arg (negsuc n) p argv = fault
put_arg (pos i) p argv =
    within (ltb i (length argv)) (pos (i + 1), take i argv ++ p ∷ drop (i + 1) argv)

-- `i` is the variable of this name, which nothing sets before it is used. `permute` says whether
-- `getopt` looks for options behind the first argument that is none. The result is the state and
-- `restartargv`.
unfoldable pub parse_commandline :
    ℤ → Bool → Bytes → List Bytes → State → Outcome (State × List (Option Bytes))
parse_commandline i permute argv0 args s = do
  let restartargv = replicate {A = Option Bytes} (length (argv0 ∷ args) + 3) none
  (i, restartargv) ← put_arg i (some argv0) restartargv
  s ← option_loop (getopt permute args) s
  (i, restartargv) ← put_arg i none restartargv
  (i, restartargv) ← put_arg i none restartargv
  (i, restartargv) ← put_arg i none restartargv
  ok (s, restartargv)
