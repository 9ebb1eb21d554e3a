-- ===== src/Remote/Executed.antt =====
-- The execution of a command while threads hold results.
use smart_ac.Base.{ℕ, ◌+◌, refl, List, ◌∷◌, Bytes, ◌==◌, ltb, length, Bool-cases, inl, inr, arith}
use smart_ac.Cstring.{codes, find_from}
use smart_ac.Outcome.{within, Whenever, Whenever->>=, Whenever-then}
use smart_ac.Queue.{ResultData, ResultQueue, Memory}
use smart_ac.Queue.Held.{Held-frame, IsSound}
use smart_ac.Queue.Results.{safe_malloc-ok, safe_malloc-full}
use smart_ac.Queue.Shape.{IsQueue, Holds-frame}
use smart_ac.Remote.{
  Shell, behind_bar, max_cmd_buf, excute_open, excute_remote_shell_command, OutFile, id_fits,
}
use smart_ac.Remote.Deliver.{opened, command_line}
use smart_ac.Remote.Sound.{Kept, queue_output-Kept}
use smart_ac.Store.{Ptr, null, Cells}
use smart_ac.Store.Linked.{Below-mono}

pub opened-IsQueue :
    (m : Memory) (q : ResultQueue) (cs : Cells Ptr) (xs : List ResultData)
    → IsQueue m q cs xs
    → IsQueue (opened m) q cs xs
opened-IsQueue m q cs xs is = record {
  chain = is.chain;
  rear_is = is.rear_is;
  holds =
      Holds-frame m.results m.results m.brk (m.brk + 1) cs xs (omega arith) (λ d lt i. refl)
        is.holds;
  below = Below-mono m.brk (m.brk + 1) ((q.front, null) ∷ cs) (omega arith) is.below;
}

opened-IsSound :
    (m : Memory) (q : ResultQueue) (rs : List Ptr) → IsSound m q rs → IsSound (opened m) q rs
opened-IsSound m q rs is = record {
  cells = is.cells;
  results = is.results;
  queue = opened-IsQueue m q is.cells is.results is.queue;
  held =
      Held-frame m (opened m) is.cells is.cells rs
        (λ r x i loose. record {
          ne_null = loose.ne_null;
          below = omega (arith, loose.below);
          at = loose.at;
          unqueued = loose.unqueued;
          is_result = loose.is_result;
        })
        is.held;
}

abbrev Opened : ResultQueue → List Ptr → OutFile × Memory → Type 0
Opened q rs (o, m) = IsSound m q rs

excute_open-Opened :
    (shell : Shell) (rand : ℕ) (command : Bytes) (q : ResultQueue) (m : Memory) (rs : List Ptr)
    → IsSound m q rs
    → Whenever (Opened q rs) (excute_open shell rand command m)
unfolding excute_open
excute_open-Opened shell rand command q m rs is = elim (Bool-cases (m.room == 0)) [
  | inl e ↦ rw (safe_malloc-full m (ground arith)) tt
  | inr e ↦ rw (safe_malloc-ok m (ground arith)) (
      Whenever-then (Opened q rs)
        (within (ltb (length (command_line rand command)) 4096) (command_line rand command)) _
        (λ cmd_line. opened-IsSound m q rs is))
]

pub excute_remote_shell_command-Kept :
    (shell : Shell) (rand : ℕ) (out_file : Ptr) (shellcmd : Bytes) (q : ResultQueue) (m : Memory)
    (rs : List Ptr)
    → IsSound m q rs
    → Whenever (Kept rs) (excute_remote_shell_command shell rand out_file shellcmd q m)
unfolding excute_remote_shell_command
excute_remote_shell_command-Kept shell rand out_file shellcmd q m rs is =
    Whenever-then (Kept rs) (behind_bar (find_from (codes "|") shellcmd)) _ (λ pos_cmd.
      Whenever-then (Kept rs) (within (id_fits shellcmd (find_from (codes "|") shellcmd)) pos_cmd) _
        (λ pos_cmd.
          Whenever-then (Kept rs) (within (ltb (length pos_cmd) max_cmd_buf) pos_cmd) _ (λ command.
            Whenever->>= (Opened q rs) (Kept rs) (excute_open shell rand command m) _
              (excute_open-Opened shell rand command q m rs is)
              (λ (out, m') is'. queue_output-Kept out_file out m' q rs is'))))
