-- ===== src/CommandLine/Settled.antt =====
-- The options of a command line, each setting on its own.
use smart_ac.Base.{
  ℕ, ◌≡◌, refl, Bool, true, false, ◌&&◌, ◌||◌, Option, none, some, List, [], ◌∷◌, Bytes, ◌==◌,
  if◌then◌else◌, arith,
}
use smart_ac.CommandLine.{handle_option, option_loop}
use smart_ac.CommandLine.Getopt.{Opt, opt}
use smart_ac.Config.{State}
use smart_ac.Cstring.Number.{ℤ, pos, atoi}
use smart_ac.Outcome.{ok, exits, ◌>>=◌}

abbrev pub has_argument : Opt → Bool
has_argument o = elim o.optarg [ none ↦ false | some _ ↦ true ]

-- The options that do not end the process.
abbrev pub accepted : Opt → Bool
accepted o =
    o.letter == b'c'
    || o.letter == b'f'
    || o.letter == b'd'
    || o.letter == b's'
    || o.letter == b'a' && has_argument o

abbrev pub all_accepted : List Opt → Bool
all_accepted [] = true
all_accepted (o ∷ os) = accepted o && all_accepted os

abbrev pub given : ℕ → List Opt → Bool
given c [] = false
given c (o ∷ os) = o.letter == c || given c os

abbrev pub argument_or : Option Bytes → Bytes → Bytes
argument_or none old = old
argument_or (some a) old = a

-- The argument of the last option of this letter.
abbrev pub last_given : ℕ → List Opt → Bytes → Bytes
last_given c [] old = old
last_given c (o ∷ os) old =
    last_given c os (if o.letter == c then argument_or o.optarg old else old)

abbrev level_or : Option Bytes → ℤ → ℤ
level_or none old = old
level_or (some a) old = atoi a

abbrev pub last_level : List Opt → ℤ → ℤ
last_level [] old = old
last_level (o ∷ os) old = last_level os (if o.letter == b'd' then level_or o.optarg old else old)

-- Each setting on its own: the last option of its letter decides.
abbrev pub settled : List Opt → State → State
settled os s = record s {
  config = record s.config {
    config_file = last_given b'c' os s.config.config_file;
    arp_table_path = last_given b'a' os s.config.arp_table_path;
    daemon = if given b'f' os then pos 0 else s.config.daemon;
  };
  debugconf = record s.debugconf {
    debuglevel = last_level os s.debugconf.debuglevel;
    log_stderr = given b'f' os || s.debugconf.log_stderr;
    log_syslog = given b's' os || s.debugconf.log_syslog;
  };
}

abbrev skipped : Opt → Bool
skipped o = o.letter == b'f'

handle_option-settled :
    (c : ℕ) (a : Option Bytes) (s : State)
    → handle_option s (opt c a)
      ≡ (if accepted (opt c a) then ok (skipped (opt c a), settled (opt c a ∷ []) s) else exits 1)
unfolding handle_option
handle_option-settled c none s = ground arith
handle_option-settled c (some a) s = ground arith

pub settled-cons :
    (o : Opt) (os : List Opt) (s : State) → settled os (settled (o ∷ []) s) ≡ settled (o ∷ os) s
settled-cons o os s = ground arith

option_loop-step :
    (b : Bool) (x : Bool × State) (os : List Opt)
    → option_loop os x.1 ≡ (if all_accepted os then ok (settled os x.1) else exits 1)
    → ((if b then ok x else exits 1) >>= (λ y. option_loop os y.1))
      ≡ (if b && all_accepted os then ok (settled os x.1) else exits 1)
option_loop-step true x os e = e
option_loop-step false x os e = refl

pub option_loop-settled :
    (os : List Opt) (s : State)
    → option_loop os s ≡ (if all_accepted os then ok (settled os s) else exits 1)
unfolding option_loop
option_loop-settled [] s = refl
option_loop-settled (o ∷ os) s =
    rw (handle_option-settled o.letter o.optarg s, ← settled-cons o os s)
      (option_loop-step (accepted o) (skipped o, settled (o ∷ []) s) os
        (option_loop-settled os (settled (o ∷ []) s)))
