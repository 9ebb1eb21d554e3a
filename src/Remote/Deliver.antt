-- ===== src/Remote/Deliver.antt =====
-- A command, its output in the queue, and the request that posts it, in one.
use smart_ac.Base.{
  ℕ, ◌+◌, ◌-◌, ◌≤◌, ◌<◌, ◌≡◌, refl, Bool, true, false, Option, none, some, [], ◌∷◌, ◌++◌, Bytes,
  ◌==◌, leb, length, length-append, take, arith, lt→ltb, ◌%◌, if◌then◌else◌,
}
use smart_ac.Config.{AcServer}
use smart_ac.Config.Line.{cut}
use smart_ac.Cstring.Number.{length-print-four}
use smart_ac.Cstring.{codes, find_from, has_nul}
use smart_ac.Outcome.{Outcome, ok, ◌>>=◌, Returns, Returns->>=}
use smart_ac.Queue.{ResultQueue, Memory, getout_queue, max_cmd_out_buf}
use smart_ac.Queue.Getout.{getout_queue-IsQueue}
use smart_ac.Queue.Results.{cmdresult_free-ok, safe_malloc-ok, copied}
use smart_ac.Queue.Shape.{IsQueue, IsLoose}
use smart_ac.Remote.{
  Shell, first_line, out_name, excute_open, excute_remote_shell_command, max_cmd_buf, queue_output,
  post_text, post_request, contents, id_fits,
}
use smart_ac.Store.{Ptr, null}
use smart_ac.Store.Linked.{load-some}
use smart_ac.Remote.Queued.{stored, Queued, queue_output-Queued}
use smart_ac.Remote.Posted.{posted_data-stored}

-- A command runs, its output goes through the queue, and the request that posts it is built.
abbrev pub deliver :
    Shell → ℕ → AcServer → Bytes → ResultQueue → Memory → Outcome (Bytes × ResultQueue × Memory)
deliver shell rand server shellcmd q m = do
  (done, q, m) ← excute_remote_shell_command shell rand null shellcmd q m
  (r, q, m) ← getout_queue q m
  (request, m) ← post_request server r m
  ok (request, q, m)

-- The line that the shell is given.
abbrev pub command_line : ℕ → Bytes → Bytes
command_line rand command = first_line command (cut b'\n' command) ++ codes " > " ++ out_name rand

-- The request, and the queue is empty again.
abbrev pub Delivered : AcServer → Bytes → (Bytes × ResultQueue × Memory) → Type 0
Delivered server out (request, q, m) =
    (request ≡ take (40960 - 2) (post_text server (length out) out)) × IsQueue m q [] []

-- What is cut off a text at its front is no longer than the text.
abbrev Shorter : Bytes → Option (Bytes × Bytes) → Type 0
Shorter b none = Unit
Shorter b (some (u, v)) = length u ≤ length b

Shorter-more :
    (x : ℕ) (b : Bytes) (o : Option (Bytes × Bytes))
    → Shorter b o
    → Shorter (x ∷ b) (elim o [ none ↦ none | some (u, v) ↦ some (x ∷ u, v) ])
Shorter-more x b none h = tt
Shorter-more x b (some (u, v)) h = omega arith

Shorter-if :
    (b : Bytes) (t : Bool) (o o' : Option (Bytes × Bytes))
    → Shorter b o
    → Shorter b o'
    → Shorter b (if t then o else o')
Shorter-if b true o o' h h' = h
Shorter-if b false o o' h h' = h'

cut-Shorter : (c : ℕ) (b : Bytes) → Shorter b (cut c b)
unfolding cut
cut-Shorter c [] = tt
cut-Shorter c (x ∷ b) =
    Shorter-if (x ∷ b) (x == c) _ _ (omega arith)
      (Shorter-if (x ∷ b) (x == 0) none _ tt (Shorter-more x b (cut c b) (cut-Shorter c b)))

length-first_line :
    (command : Bytes) (o : Option (Bytes × Bytes))
    → Shorter command o
    → length (first_line command o) ≤ length command
length-first_line command none h = omega arith
length-first_line command (some (u, v)) h = h

length-command_line :
    (rand : ℕ) (command : Bytes)
    → length command < max_cmd_buf
    → length (command_line rand command) < 4096
unfolding out_name
length-command_line rand command short = omega (
  arith,
  length-first_line command (cut b'\n' command) (cut-Shorter b'\n' command),
  length-print-four (rand % (9999 - 1000 + 1) + 1000) (omega arith),
  length-append (first_line command (cut b'\n' command) ++ codes " > ") (out_name rand),
  length-append (first_line command (cut b'\n' command)) (codes " > "),
)

pub excute_open-ok :
    (shell : Shell) (rand : ℕ) (command : Bytes) (m : Memory)
    → 0 < m.room
    → length command < max_cmd_buf
    → excute_open shell rand command m
      ≡ ok (
        shell (command_line rand command) (out_name rand),
        record m { brk = m.brk + 1; room = m.room - 1 },
      )
unfolding excute_open
excute_open-ok shell rand command m room short =
    rw (safe_malloc-ok m room, lt→ltb _ _ (length-command_line rand command short)) refl

-- The memory behind the allocation in `excute_open`.
abbrev pub opened : Memory → Memory
opened m = record m { brk = m.brk + 1; room = m.room - 1 }

opened-IsQueue : (m : Memory) (q : ResultQueue) → IsQueue m q [] [] → IsQueue (opened m) q [] []
opened-IsQueue m q is = record {
  chain = is.chain;
  rear_is = is.rear_is;
  holds = tt;
  below = (omega (arith, is.below.0), tt);
}

-- What `getout_queue` hands out of the queue of the one result.
abbrev Taken : Memory → Bytes → Ptr → (Ptr × ResultQueue × Memory) → Type 0
Taken m out d (r, q', m') =
    IsLoose m' [] r (copied (stored out))
    × (m'.results d ≡ none)
    × (m'.room + 2 ≡ m.room)
    × IsQueue m' q' [] []

-- The AC server's command is the text behind the first `|` and one more byte. Where the command's id in
-- front of the `|` fits into its array of 64 bytes and the command is shorter than its buffer, the shell
-- prints at most 20478 bytes and no NUL for it, no other result waits, the allocations succeed and the
-- unset pointer that is freed happens to be null, the request that posts the result has the output as its
-- body and the length of it as its Content-Length, cut to the 40958 bytes of the request's buffer.
pub deliver-Delivered :
    (shell : Shell) (rand : ℕ) (server : AcServer) (shellcmd command out : Bytes) (bar skipped : ℕ)
    (q : ResultQueue) (m : Memory)
    → find_from (codes "|") shellcmd ≡ some (bar ∷ skipped ∷ command)
    → id_fits shellcmd (some (bar ∷ skipped ∷ command)) ≡ true
    → length command < max_cmd_buf
    → shell (command_line rand command) (out_name rand) ≡ contents out
    → has_nul out ≡ false
    → length out ≤ max_cmd_out_buf - 2
    → IsQueue m q [] []
    → 6 ≤ m.room
    → Returns (Delivered server out) (deliver shell rand server shellcmd q m)
unfolding excute_remote_shell_command post_request
deliver-Delivered shell rand server shellcmd command out bar skipped q m at id short prints text len
      is room =
    let fits : leb (length out) (max_cmd_out_buf - 2) ≡ true = ground arith in
    rw
      (
        at,
        id,
        lt→ltb (length command) max_cmd_buf short,
        excute_open-ok shell rand command m (omega arith) short,
        prints,
      )
      (Returns->>= (Queued (opened m) [] [] out) (Delivered server out)
        (queue_output null (contents out) q (opened m)) _
        (queue_output-Queued (opened m) q [] [] out (opened-IsQueue m q is) (omega arith)
          (omega arith))
        (λ (done, q', m') (_, room', (new, is')).
          Returns->>= (Taken m' out new.1) (Delivered server out) (getout_queue q' m') _
            (getout_queue-IsQueue m' q' new.0 new.1 [] (stored out) [] is' (omega arith))
            (λ (r, q'', m'') (loose, _, _, is'').
              rw
                (
                  load-some m''.results r (copied (stored out)) loose.ne_null loose.at,
                  posted_data-stored out text (omega arith),
                  fits,
                  cmdresult_free-ok m'' r (copied (stored out)) loose.ne_null loose.at,
                )
                (
                  refl,
                  record {
                    chain = is''.chain;
                    rear_is = is''.rear_is;
                    holds = tt;
                    below = is''.below;
                  },
                ))))
