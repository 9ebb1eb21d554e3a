-- ===== src/Main/Signals.antt =====
-- The signal handlers of smartac.c: `init_signals` and `termination_handler`.
use smart_ac.Base.{ℕ, Bool, ◌==◌, if◌then◌else◌}
use smart_ac.Clients.Json.{Host}
use smart_ac.Clients.Json.Report.{update_ac_information}
use smart_ac.Cstring.{codes}
use smart_ac.Outcome.{Outcome, ok, exits, ◌>>=◌}
use smart_ac.Queue.{ResultQueue, Memory, destroy_queue}

pub data Signal : Type 0 where
  sigchld sigpipe sigterm sigquit sigint : Signal

-- `by_default` is what the process starts with; `sigchld_handler` reaps one child.
pub data Handler : Type 0 where
  by_default ignored sigchld_handler terminates : Handler

-- The handler of each signal.
pub record Handlers : Type 0 where
  pub chld : Handler
  pub pipe : Handler
  pub term : Handler
  pub quit : Handler
  pub int : Handler

abbrev pub set_handler : Signal → Handler → Handlers → Handlers
set_handler sigchld h hs = record hs { chld = h }
set_handler sigpipe h hs = record hs { pipe = h }
set_handler sigterm h hs = record hs { term = h }
set_handler sigquit h hs = record hs { quit = h }
set_handler sigint h hs = record hs { int = h }

-- `if (sigaction (…) == -1) exit (1);`; `works` says for which signals the call succeeds.
unfoldable pub install : (Signal → Bool) → Signal → Handler → Handlers → Outcome Handlers
install works signal h hs = if works signal then ok (set_handler signal h hs) else exits 1

unfoldable pub init_signals : (Signal → Bool) → Handlers → Outcome Handlers
init_signals works hs = do
  hs ← install works sigchld sigchld_handler hs
  hs ← install works sigpipe ignored hs
  hs ← install works sigterm terminates hs
  hs ← install works sigquit terminates hs
  install works sigint terminates hs

-- How the handler ends where it does not call `exit`: its thread ends, or SIGKILL ends the whole process.
pub data Termination : Type 0 where
  thread_ends process_killed : Termination

-- `locked` says whether a thread is in the handler already, and `other` whether the ping thread was created
-- and is another thread than this one. `pthread_kill` with SIGKILL sends the signal to that thread, but
-- what the signal ends is the process.
unfoldable pub termination_handler :
    Bool → Bool → Host → ℕ → ResultQueue → Memory → Outcome Termination
termination_handler locked other host s q m =
    let clean_up = (do
      (q, m) ← destroy_queue q m
      done ← update_ac_information host (codes "chain_clean_up")
      exits (if s == 0 then 1 else 0)) in
    if locked then ok thread_ends else if other then ok process_killed else clean_up
