-- ===== src/Debug.antt =====
-- smartac_debug.c: where the output of `debug` goes.
use smart_ac.Base.{ℕ, Bool, true, false, List, [], ◌∷◌, ◌++◌, Bytes, leb, if◌then◌else◌, take}
use smart_ac.Config.{DebugConf, log_info}
use smart_ac.Cstring.{codes}
use smart_ac.Cstring.Number.{ℤ, pos, negsuc, print}

-- `LOG_WARNING`
abbrev pub log_warning : ℕ
log_warning = 4

abbrev pub initial_debugconf : DebugConf
initial_debugconf = record {
  debuglevel = pos log_info;
  log_stderr = true;
  log_syslog = false;
  syslog_facility = 0;
}

-- What was written to `stderr`, a line each; what was given to `syslog`, with its facility and level; and
-- whether SIGCHLD is blocked.
pub record Log : Type 0 where
  pub stderr : List Bytes
  pub syslog : List (ℕ × ℕ × Bytes)
  pub blocked : Bool

-- What a message says about itself: the time as `ctime_r` gives it, the process, the file and the line.
pub record Origin : Type 0 where
  pub time : Bytes
  pub pid : ℕ
  pub filename : Bytes
  pub line : ℕ

-- `debugconf.debuglevel >= level`
abbrev pub reaches : ℤ → ℕ → Bool
reaches (pos n) level = leb level n
reaches (negsuc n) level = false

-- The line that is printed to `stderr`.
unfoldable pub stderr_line : Origin → ℕ → Bytes → Bytes
stderr_line o level text =
    codes "["
    ++ print level
    ++ codes "]["
    ++ take 24 o.time
    ++ codes "]["
    ++ print o.pid
    ++ codes "]("
    ++ o.filename
    ++ codes ":"
    ++ print o.line
    ++ codes ") "
    ++ text

unfoldable pub to_stderr : DebugConf → Origin → ℕ → Bytes → Log → Log
unfolding stderr_line
to_stderr c o level text log =
    let printed = record log { stderr = log.stderr ++ stderr_line o level text ∷ [] } in
    if leb level log_warning then printed else if c.log_stderr then printed else log

unfoldable pub to_syslog : DebugConf → ℕ → Bytes → Log → Log
to_syslog c level text log =
    if c.log_syslog
    then record log { syslog = log.syslog ++ (c.syslog_facility, level, text) ∷ [] }
    else log

-- `_debug` of a message that is printed as `text`.
unfoldable pub debug : DebugConf → Origin → ℕ → Bytes → Log → Log
unfolding to_stderr to_syslog
debug c o level text log =
    let log' = to_syslog c level text (to_stderr c o level text (record log { blocked = true })) in
    if reaches c.debuglevel level then record log' { blocked = false } else log
