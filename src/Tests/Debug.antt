-- ===== src/Tests/Debug.antt =====
-- A message that is logged and one that is not.
use smart_ac.Base.{◌≡◌, refl, false, true, [], ◌∷◌}
use smart_ac.Cstring.{codes}
use smart_ac.Cstring.Number.{print}
use smart_ac.Debug.{Log, Origin, initial_debugconf, debug, to_stderr, to_syslog, stderr_line}

abbrev origin : Origin
origin = record {
  time = codes "Sat Jan 16 12:00:00 2016\n";
  pid = 7;
  filename = codes "a.c";
  line = 12;
}

abbrev nothing : Log
nothing = record { stderr = []; syslog = []; blocked = true }

debug_lem : debug initial_debugconf origin 6 (codes "hi") nothing ≡ record {
  stderr = codes "[6][Sat Jan 16 12:00:00 2016][7](a.c:12) hi" ∷ [];
  syslog = [];
  blocked = false;
}
unfolding debug to_stderr to_syslog stderr_line print
debug_lem = refl

debug-below_lem : debug initial_debugconf origin 7 (codes "hi") nothing ≡ nothing
unfolding debug to_stderr to_syslog stderr_line
debug-below_lem = refl
