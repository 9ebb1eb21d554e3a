-- ===== src/Remote/Queued.antt =====
-- `queue_output` against the list of results that the queue stands for.
use smart_ac.Base.{
  ℕ, ◌+◌, ◌-◌, ◌≤◌, ◌≡◌, refl, ◌∙◌, Bool, true, some, List, [], ◌∷◌, ◌++◌, Bytes, length,
  length-append, length-drop, length-replicate, drop, replicate, arith,
}
use smart_ac.Outcome.{ok, Returns, Returns->>=}
use smart_ac.Queue.{
  ResultData, ResultQueue, Memory, insert_queue, max_cmd_out_buf, buffer_size, zeroed,
}
use smart_ac.Queue.Insert.{insert_queue-IsQueue}
use smart_ac.Queue.Results.{cmdresult_malloc-ok}
use smart_ac.Queue.Shape.{IsResult, IsQueue, IsLoose, Holds-frame, not-has_data_of_le}
use smart_ac.Remote.{read_result, queue_output, contents}
use smart_ac.Store.{Ptr, null, write, Cells}
use smart_ac.Store.Linked.{Below-mono, write_self, write_ne, load-some}

-- The result that an output is stored in, with the zero bytes that its buffer ends in.
abbrev pub stored : Bytes → ResultData
stored out = record {
  result = out ++ drop (length out) (replicate (buffer_size (length out)) 0);
  size = buffer_size (length out);
  c_size = length out;
}

pub read_result-stored :
    (out : Bytes)
    → length out ≤ max_cmd_out_buf + 2
    → read_result out (zeroed (buffer_size (length out))) ≡ ok (stored out)
unfolding read_result
read_result-stored out h = ground (arith, length-replicate {A = ℕ} (buffer_size (length out)) 0)

pub stored-IsResult : (out : Bytes) → length out ≤ max_cmd_out_buf + 2 → IsResult (stored out)
stored-IsResult out h = record {
  sized =
      length-append out _
      ∙ ground (
        arith,
        length-drop {A = ℕ} (length out) (replicate (buffer_size (length out)) 0),
        length-replicate {A = ℕ} (buffer_size (length out)) 0,
      );
  bounded = ground arith;
}

-- The memory between the allocation of a result and its insertion.
abbrev pub with_result : Memory → Bytes → Memory
with_result m out = record m {
  results =
      write (write m.results m.brk (some (zeroed (buffer_size (length out))))) m.brk
        (some (stored out));
  brk = m.brk + 1 + 1;
  room = m.room - 1 - 1;
}

module _ (m : Memory) (q : ResultQueue) (cs : Cells Ptr) (xs : List ResultData) (out : Bytes)
    (is : IsQueue m q cs xs) (h : length out ≤ max_cmd_out_buf + 2) where
  pub with_result-IsQueue : IsQueue (with_result m out) q cs xs
  with_result-IsQueue = record {
    chain = is.chain;
    rear_is = is.rear_is;
    holds =
        Holds-frame m.results _ m.brk (m.brk + 1 + 1) cs xs (omega arith)
          (λ d lt i.
            write_ne _ m.brk d _ (λ e. absurd (omega arith))
            ∙ write_ne _ m.brk d _ (λ e. absurd (omega arith)))
          is.holds;
    below = Below-mono m.brk (m.brk + 1 + 1) ((q.front, null) ∷ cs) (omega arith) is.below;
  }

  pub with_result-IsLoose : IsLoose (with_result m out) cs m.brk (stored out)
  with_result-IsLoose = record {
    ne_null = λ e. absurd (omega (arith, is.below.0));
    below = omega arith;
    at = write_self _ _ _;
    unqueued = not-has_data_of_le m.results m.brk m.brk cs xs (omega arith) is.holds;
    is_result = stored-IsResult out h;
  }

-- The output is queued behind the results that wait.
abbrev pub Queued :
    Memory → Cells Ptr → List ResultData → Bytes → (Bool × ResultQueue × Memory) → Type 0
Queued m cs xs out (done, q', m') =
    (done ≡ true)
    × (m'.room + 3 ≡ m.room)
    × ((new : Ptr × Ptr) × IsQueue m' q' (cs ++ new ∷ []) (xs ++ stored out ∷ []))

abbrev Inserted : Memory → Cells Ptr → List ResultData → Bytes → (ResultQueue × Memory) → Type 0
Inserted m cs xs out (q', m') =
    (m'.room + 1 ≡ m.room - 1 - 1)
    × IsQueue m' q' (cs ++ (m.brk + 1 + 1, m.brk) ∷ []) (xs ++ stored out ∷ [])

-- An output of at most 20482 bytes is queued behind the results that wait, where there is memory for
-- it and the unset pointer that is freed at the end happens to be null.
pub queue_output-Queued :
    (m : Memory) (q : ResultQueue) (cs : Cells Ptr) (xs : List ResultData) (out : Bytes)
    → IsQueue m q cs xs
    → 3 ≤ m.room
    → length out ≤ max_cmd_out_buf + 2
    → Returns (Queued m cs xs out) (queue_output null (contents out) q m)
unfolding queue_output
queue_output-Queued m q cs xs out is room h =
    rw
      (
        cmdresult_malloc-ok (length out) m (omega arith),
        load-some (write m.results m.brk (some (zeroed (buffer_size (length out))))) m.brk
            (zeroed (buffer_size (length out))) (λ e. absurd (omega (arith, is.below.0)))
            (write_self _ _ _),
        read_result-stored out h,
      )
      (Returns->>= (Inserted m cs xs out) (Queued m cs xs out)
        (insert_queue q m.brk (with_result m out)) _
        (insert_queue-IsQueue (with_result m out) q cs xs (with_result-IsQueue m q cs xs out is h)
          m.brk (stored out) (omega arith) (with_result-IsLoose m q cs xs out is h))
        (λ (q', m') (room', is'). (refl, omega arith, ((m.brk + 1 + 1, m.brk), is'))))
