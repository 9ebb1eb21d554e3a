-- ===== src/Interfaces/Executed.antt =====
-- What the parent learns of a command that it executes.
use smart_ac.Base.{
  ℕ, ◌+◌, ◌*◌, ◌<◌, ◌≡◌, refl, Bool, true, false, Bool-cases, inl, inr, if◌then◌else◌, Bytes, arith,
}
use smart_ac.Config.{is_minus_one}
use smart_ac.Cstring.Number.{ℤ, pos}
use smart_ac.Interfaces.{Process, wait_result, execute}
use smart_ac.Outcome.{ok}
use smart_ac.Safe.{Descriptors, is_child, safe_fork}

-- How a child ends: it exits with a status, or a signal kills it, with or without a core dump.
pub data Ending : Type 0 where
  exited : ℕ → Ending
  killed : ℕ → Bool → Ending

-- The status that `waitpid` stores.
abbrev pub status_of : Ending → ℕ
status_of (exited n) = n * 256
status_of (killed signal true) = signal + 128
status_of (killed signal false) = signal

abbrev pub IsEnding : Ending → Type 0
IsEnding (exited n) = n < 256
IsEnding (killed signal core) = (0 < signal) × (signal < 127)

abbrev pub reported : Ending → ℕ
reported (exited n) = n
reported (killed signal core) = 1

wait_result-lost : (p : Process) → is_minus_one p.waited ≡ true → wait_result p ≡ pos 1
unfolding wait_result
wait_result-lost p lost = rw lost refl

wait_result-reported :
    (e : Ending) (p : Process)
    → IsEnding e
    → is_minus_one p.waited ≡ false
    → p.status ≡ status_of e
    → wait_result p ≡ pos (reported e)
unfolding wait_result
wait_result-reported (exited n) p is found at = rw (found, at) (ground arith)
wait_result-reported (killed signal true) p is found at = rw (found, at) (ground arith)
wait_result-reported (killed signal false) p is found at = rw (found, at) (ground arith)

-- What the parent learns of the child: a `waitpid` that fails, as where the handler of SIGCHLD reaped
-- the child before, counts as the status 1.
abbrev pub learned : ℤ → Ending → ℕ
learned waited e = if is_minus_one waited then 1 else reported e

wait_result-learned :
    (e : Ending) (p : Process)
    → IsEnding e
    → p.status ≡ status_of e
    → wait_result p ≡ pos (learned p.waited e)
wait_result-learned e p is at = elim (Bool-cases (is_minus_one p.waited)) [
  | inl lost ↦ rw (wait_result-lost p lost, lost) refl
  | inr found ↦ rw (wait_result-reported e p is found at, found) refl
]

-- Where fork succeeds, `execute` in the parent returns the status that the shell exits with, 1 where a
-- signal killed it, and 1 whatever the child did where `waitpid` fails; the registered descriptors stay
-- as they are.
pub execute-reported :
    (processes : Bytes → Process) (cmd_line : Bytes) (d : Descriptors) (e : Ending)
    → IsEnding e
    → is_minus_one (processes cmd_line).forked ≡ false
    → is_child (processes cmd_line).forked ≡ false
    → (processes cmd_line).status ≡ status_of e
    → execute processes cmd_line d ≡ ok (pos (learned (processes cmd_line).waited e), d)
unfolding execute safe_fork
execute-reported processes cmd_line d e is forked parent at =
    rw (forked, parent, parent, wait_result-learned e (processes cmd_line) is at) refl
