-- ===== src/Tests/CommandLine.antt =====
-- The command line on concrete arguments.
use smart_ac.Base.{◌≡◌, refl, true, false, none, some, [], ◌∷◌, arith, List, Bytes}
use smart_ac.CommandLine.{parse_commandline, put_arg}
use smart_ac.CommandLine.Carried.{carry_out_all, parse_commandline-carry_out}
use smart_ac.CommandLine.Getopt.{opt, getopt, scan, element, cluster}
use smart_ac.CommandLine.Parsed.{placed, parsed, parse_commandline-parsed}
use smart_ac.CommandLine.Settings.{config_file, foreground, command_line, Setting}
use smart_ac.Cstring.{codes}
use smart_ac.Cstring.Number.{pos}
use smart_ac.Outcome.{ok, fault}
use smart_ac.Tests.Config.{blank}

abbrev pub args : List Bytes
args = codes "-fd" ∷ codes "7" ∷ codes "-c/etc/ac.conf" ∷ []

getopt_runs :
    getopt false args
    ≡ opt b'f' none ∷ opt b'd' (some (codes "7")) ∷ opt b'c' (some (codes "/etc/ac.conf")) ∷ []
unfolding getopt scan element cluster
getopt_runs = refl

-- Operands end the options, or are passed over.
getopt_stops : getopt false (codes "x" ∷ codes "-s" ∷ []) ≡ []
unfolding getopt scan element
getopt_stops = refl

getopt_permutes : getopt true (codes "x" ∷ codes "-s" ∷ []) ≡ opt b's' none ∷ []
unfolding getopt scan element cluster
getopt_permutes = refl

missing_argument : getopt false (codes "-c" ∷ []) ≡ opt b'?' none ∷ []
unfolding getopt scan element cluster
missing_argument = refl

-- An index that is not set and happens to be 4 in a call without arguments.
crashes : parse_commandline (pos 4) false (codes "smartac") [] blank ≡ fault
unfolding parse_commandline put_arg
crashes = refl

-- In the foreground, with this configuration file.
abbrev settings : List Setting
settings = config_file (codes "a.conf") ∷ foreground ∷ []

parse_commandline-carry_out_example :
    parse_commandline
      (pos 1)
      true
      (codes "smartac")
      (command_line false settings (codes "x" ∷ []))
      blank
    ≡ ok (carry_out_all settings blank, placed 1 (codes "smartac") 6)
parse_commandline-carry_out_example =
    parse_commandline-carry_out 1 true false (codes "smartac") settings (codes "x" ∷ []) blank tt
      (ground arith)

parse_commandline-parsed_example :
    parse_commandline (pos 0) false (codes "smartac") args blank
    ≡ parsed (pos 0) 4 (codes "smartac") (getopt false args) blank
parse_commandline-parsed_example =
    parse_commandline-parsed (pos 0) false (codes "smartac") args blank
