-- ===== src/Ping/Answer.antt =====
-- The command in the answer of the AC server.
use smart_ac.Base.{
  ℕ, ◌+◌, ◌≤◌, ◌<◌, ◌≡◌, true, some, List, [], ◌∷◌, ◌++◌, Bytes, length, lt→ltb, arith,
}
use smart_ac.Cstring.{codes, find_from}
use smart_ac.Outcome.{Returns, Returns->>=}
use smart_ac.Ping.{check_pong, handle_answer, run_command}
use smart_ac.Queue.{ResultData, ResultQueue, Memory, max_cmd_out_buf}
use smart_ac.Queue.Shape.{IsQueue}
use smart_ac.Remote.{
  Shell, excute_remote_shell_command, queue_output, max_cmd_buf, out_name, contents, id_fits,
}
use smart_ac.Remote.Deliver.{command_line, excute_open-ok, opened}
use smart_ac.Remote.Executed.{opened-IsQueue}
use smart_ac.Remote.Queued.{stored, Queued, queue_output-Queued}
use smart_ac.Store.{Ptr, null, Cells}

-- An answer that carries a command: it contains `Pong`, and behind its first `|` stands a text in whose
-- own first `|` and the byte behind it the command begins; the id in front of it fits into its array.
pub record IsCommand (res cmdptr command : Bytes) : Type 0 where
  pub bar : ℕ
  pub bar' : ℕ
  pub skipped : ℕ
  pub pong : Bytes
  pub has_pong : find_from (codes "Pong") res ≡ some pong
  pub has_bar : find_from (codes "|") res ≡ some (bar ∷ cmdptr)
  pub has_command : find_from (codes "|") cmdptr ≡ some (bar' ∷ skipped ∷ command)
  pub short_id : id_fits cmdptr (some (bar' ∷ skipped ∷ command)) ≡ true
  pub fits : length cmdptr < max_cmd_buf
  pub command_fits : length command < max_cmd_buf

-- The output is queued behind the results that wait.
abbrev pub Answered : Cells Ptr → List ResultData → Bytes → (ResultQueue × Memory) → Type 0
Answered cs xs out (q, m) = (new : Ptr × Ptr) × IsQueue m q (cs ++ new ∷ []) (xs ++ stored out ∷ [])

-- The command that an answer carries, with an id that fits into its array of 64 bytes, is executed, and its
-- output of at most 20481 bytes is queued behind the results that wait, where there is memory for it and
-- the unset pointer that is freed at the end happens to be null.
pub handle_answer-Answered :
    (shell : Shell) (rand : ℕ) (res cmdptr command out : Bytes) (q : ResultQueue) (m : Memory)
    (cs : Cells Ptr) (xs : List ResultData)
    → IsCommand res cmdptr command
    → shell (command_line rand command) (out_name rand) ≡ contents out
    → length out ≤ max_cmd_out_buf + 1
    → IsQueue m q cs xs
    → 4 ≤ m.room
    → Returns (Answered cs xs out) (handle_answer shell rand null (some res) q m)
unfolding handle_answer check_pong run_command excute_remote_shell_command
handle_answer-Answered shell rand res cmdptr command out q m cs xs c prints len is room =
    rw
      (
        c.has_pong,
        c.has_bar,
        lt→ltb (length cmdptr) max_cmd_buf c.fits,
        c.has_command,
        c.short_id,
        lt→ltb (length command) max_cmd_buf c.command_fits,
        excute_open-ok shell rand command m (omega arith) c.command_fits,
        prints,
      )
      (Returns->>= (Queued (opened m) cs xs out) (Answered cs xs out)
        (queue_output null (contents out) q (opened m)) _
        (queue_output-Queued (opened m) q cs xs out (opened-IsQueue m q cs xs is) (omega arith)
          (omega arith))
        (λ (done, q', m') (_, _, queued). queued))
