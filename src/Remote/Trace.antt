-- ===== src/Remote/Trace.antt =====
-- Sequences of calls on the queue, as the ping thread and the main loop interleave them, against a
-- plain list.
use smart_ac.Base.{
  ◌+◌, ◌*◌, ◌≤◌, ◌≡◌, ◌≢◌, refl, ap, false, Option, none, some, List, [], ◌∷◌, ◌++◌, Bytes, ◌==◌,
  if◌then◌else◌, length, arith,
}
use smart_ac.Outcome.{Outcome, ok, ◌>>=◌, Returns, Returns->>=}
use smart_ac.Queue.{ResultData, ResultQueue, Memory, getout_queue, max_cmd_out_buf}
use smart_ac.Queue.Getout.{getout_queue-IsQueue}
use smart_ac.Queue.Results.{copied}
use smart_ac.Queue.Shape.{IsQueue, IsLoose}
use smart_ac.Remote.{queue_output, contents}
use smart_ac.Remote.Queued.{stored, Queued, queue_output-Queued}
use smart_ac.Store.{Ptr, null, load, Cells}
use smart_ac.Store.Linked.{load-some}

-- The ping thread queues an output, or the main loop takes a result out.
pub data Call : Type 0 where
  put : Bytes → Call
  take : Call

-- What the main loop finds at the address that it is handed.
abbrev pub taken : Ptr → Memory → Outcome (Option ResultData)
taken r m = if r == null then ok none else (do x ← load m.results r; ok (some x))

-- The calls one after the other, and what is taken out.
abbrev pub Ran : Type 0
Ran = List (Option ResultData) × ResultQueue × Memory

unfoldable pub run : List Call → ResultQueue → Memory → Outcome Ran
run [] q m = ok ([], q, m)
run (put out ∷ calls) q m = do (done, q, m) ← queue_output null (contents out) q m; run calls q m
run (take ∷ calls) q m = do
  (r, q, m) ← getout_queue q m
  x ← taken r m
  (xs, q, m) ← run calls q m
  ok (x ∷ xs, q, m)

-- The same on a list: what is taken out, and what stays.
abbrev pub fifo : List Call → List ResultData → List (Option ResultData) × List ResultData
fifo [] xs = ([], xs)
fifo (put out ∷ calls) xs = fifo calls (xs ++ stored out ∷ [])
fifo (take ∷ calls) [] = let (ys, xs) = fifo calls [] in (none ∷ ys, xs)
fifo (take ∷ calls) (x ∷ xs) = let (ys, xs) = fifo calls xs in (some (copied x) ∷ ys, xs)

abbrev pub Fit : List Call → Type 0
Fit [] = Unit
Fit (put out ∷ calls) = (length out ≤ max_cmd_out_buf + 1) × Fit calls
Fit (take ∷ calls) = Fit calls

abbrev pub RanAs : List (Option ResultData) × List ResultData → Ran → Type 0
RanAs (ys, xs) (ys', q, m) = (ys' ≡ ys) × ((cs : Cells Ptr) × IsQueue m q cs xs)

abbrev more :
    Option ResultData
    → List (Option ResultData) × List ResultData
    → List (Option ResultData) × List ResultData
more y (ys, xs) = (y ∷ ys, xs)

-- What a call of `getout_queue` is followed by.
abbrev rest_of_take : List Call → Ptr × ResultQueue × Memory → Outcome Ran
rest_of_take calls (r, q, m) = do x ← taken r m; (xs, q, m) ← run calls q m; ok (x ∷ xs, q, m)

rest-RanAs :
    (calls : List Call) (spec : List (Option ResultData) × List ResultData) (y : Option ResultData)
    (r : Ptr) (q : ResultQueue) (m : Memory)
    → taken r m ≡ ok y
    → Returns (RanAs spec) (run calls q m)
    → Returns (RanAs (more y spec)) (rest_of_take calls (r, q, m))
rest-RanAs calls spec y r q m e ran = rw e (
    Returns->>= (RanAs spec) (RanAs (more y spec)) (run calls q m) _ ran
      (λ (ys, q', m') (same, queue). (ap (y ∷◌) same, queue)))

getout_queue-empty :
    (m : Memory) (q : ResultQueue) (cs : Cells Ptr)
    → IsQueue m q cs []
    → getout_queue q m ≡ ok (null, q, m)
unfolding getout_queue
getout_queue-empty m q [] is = ground (arith, is.rear_is)
getout_queue-empty m q (c ∷ cs) is = elim is.holds [ ]

taken-some :
    (r : Ptr) (m : Memory) (x : ResultData)
    → r ≢ null
    → m.results r ≡ some x
    → taken r m ≡ ok (some x)
taken-some r m x ne at =
    let here : (r == null) ≡ false = ground (arith, ne) in
    rw (here, load-some m.results r x ne at) refl

-- What `getout_queue` leaves, with the result that it handed out.
abbrev Taken :
    Memory → Cells Ptr → List ResultData → ResultData → Ptr → Ptr × ResultQueue × Memory → Type 0
Taken m cs xs x d (r, q', m') =
    IsLoose m' cs r (copied x)
    × (m'.results d ≡ none)
    × (m'.room + 2 ≡ m.room)
    × IsQueue m' q' cs xs

-- Every sequence of such calls on a well-formed queue, with outputs of at most 20481 bytes, memory for
-- three allocations each, and where the unset pointer that is freed happens to be null, always runs to its
-- end without a fault; what is taken out, and what stays, is what a list gives to which results are added
-- at the end and from which they are taken at the front.
pub run-RanAs :
    (calls : List Call) (m : Memory) (q : ResultQueue) (cs : Cells Ptr) (xs : List ResultData)
    → IsQueue m q cs xs
    → Fit calls
    → 3 * length calls ≤ m.room
    → Returns (RanAs (fifo calls xs)) (run calls q m)
unfolding run
run-RanAs [] m q cs xs is fit room = (refl, (cs, is))
run-RanAs (put out ∷ calls) m q cs xs is (h, fit) room =
    Returns->>= (Queued m cs xs out) (RanAs (fifo calls (xs ++ stored out ∷ [])))
      (queue_output null (contents out) q m) _
      (queue_output-Queued m q cs xs out is (omega arith) (omega arith))
      (λ (done, q', m') (_, left, (new, is')).
        run-RanAs calls m' q' (cs ++ new ∷ []) (xs ++ stored out ∷ []) is' fit (omega arith))
run-RanAs (take ∷ calls) m q cs [] is fit room = rw (getout_queue-empty m q cs is) (
    rest-RanAs calls (fifo calls []) none null q m refl
      (run-RanAs calls m q cs [] is fit (omega arith)))
run-RanAs (take ∷ calls) m q [] (x ∷ xs) is fit room = elim is.holds [ ]
run-RanAs (take ∷ calls) m q ((p, d) ∷ cs) (x ∷ xs) is fit room =
    Returns->>= (Taken m cs xs x d) (RanAs (more (some (copied x)) (fifo calls xs)))
      (getout_queue q m) _ (getout_queue-IsQueue m q p d cs x xs is (omega arith))
      (λ (r, q', m') (loose, _, left, is').
        rest-RanAs calls (fifo calls xs) (some (copied x)) r q' m'
          (taken-some r m' (copied x) loose.ne_null loose.at)
          (run-RanAs calls m' q' cs xs is' fit (omega arith)))
