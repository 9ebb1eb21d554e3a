-- ===== src/Remote/Sound.antt =====
-- Queueing an output while threads hold results, with whatever ends it early.
use smart_ac.Base.{
  ℕ, ◌+◌, ◌<◌, ◌≤◌, ◌≡◌, ◌≢◌, refl, ap, ◌∙◌, Bool, false, some, List, [], ◌∷◌, ◌++◌, Bytes, ◌==◌,
  leb, length, replicate, length-replicate, Bool-cases, inl, inr, arith,
}
use smart_ac.Outcome.{
  exits, fault, Whenever, Whenever->>=, Whenever-then, Whenever-both, Whenever-of_Returns,
}
use smart_ac.Queue.{
  ResultData, ResultQueue, Memory, insert_queue, buffer_size, zeroed, max_cmd_out_buf,
}
use smart_ac.Queue.Held.{Held, Held-frame, IsSound}
use smart_ac.Queue.Insert.{insert_queue-IsQueue}
use smart_ac.Queue.Results.{
  safe_malloc-ok, safe_malloc-full, cmdresult_malloc-ok, cmdresult_malloc-full,
}
use smart_ac.Queue.Shape.{IsQueue, IsLoose, has_data-snoc}
use smart_ac.Remote.{read_result, free_unset, queue_output, OutFile, unopened, unsized, contents}
use smart_ac.Remote.Queued.{
  stored, read_result-stored, with_result, with_result-IsQueue, with_result-IsLoose,
}
use smart_ac.Store.{Ptr, null, load, write, Cells}
use smart_ac.Store.Linked.{load-some, write_self, write_ne}

-- The results are the same, and one address more is taken.
abbrev LinkedIn : Memory → ResultQueue × Memory → Type 0
LinkedIn m (q', m') = (m'.results ≡ m.results) × (m'.brk ≡ m.brk + 1)

abbrev Inserted : Memory → Ptr → Cells Ptr → List ResultData → ResultQueue × Memory → Type 0
Inserted m elem cs xs (q', m') = IsQueue m' q' (cs ++ (m.brk, elem) ∷ []) xs × LinkedIn m (q', m')

abbrev InQueue : Memory → Ptr → Cells Ptr → List ResultData → ResultQueue × Memory → Type 0
InQueue m elem cs xs (q', m') = (m'.room + 1 ≡ m.room) × IsQueue m' q' (cs ++ (m.brk, elem) ∷ []) xs

insert_queue-LinkedIn :
    (m : Memory) (q : ResultQueue) (elem : Ptr)
    → 0 < m.room
    → Whenever (LinkedIn m) (insert_queue q elem m)
unfolding insert_queue
insert_queue-LinkedIn m q elem room =
    rw (safe_malloc-ok m room) (Whenever-then (LinkedIn m) (load _ q.rear) _ (λ last. (refl, refl)))

insert_queue-full :
    (m : Memory) (q : ResultQueue) (elem : Ptr) → m.room ≡ 0 → insert_queue q elem m ≡ exits 1
unfolding insert_queue
insert_queue-full m q elem e = rw (safe_malloc-full m e) refl

insert_queue-Inserted :
    (m : Memory) (q : ResultQueue) (elem : Ptr) (x : ResultData) (cs : Cells Ptr)
    (xs : List ResultData)
    → IsQueue m q cs xs
    → IsLoose m cs elem x
    → Whenever (Inserted m elem cs (xs ++ x ∷ [])) (insert_queue q elem m)
insert_queue-Inserted m q elem x cs xs is loose = elim (Bool-cases (m.room == 0)) [
  | inl e ↦ rw (insert_queue-full m q elem (ground arith)) tt
  | inr e ↦
      let room : 0 < m.room = ground arith in
      Whenever-both (InQueue m elem cs (xs ++ x ∷ [])) (LinkedIn m)
        (Inserted m elem cs (xs ++ x ∷ [])) (insert_queue q elem m)
        (Whenever-of_Returns (InQueue m elem cs (xs ++ x ∷ [])) (insert_queue q elem m)
          (insert_queue-IsQueue m q cs xs is elem x room loose))
        (insert_queue-LinkedIn m q elem room) (λ (q', m') (_, queue) linked. (queue, linked))
]

-- The output lies in new memory, so every result that is held stays as it is.
with_result-Held :
    (m m' : Memory) (cs : Cells Ptr) (xs : List ResultData) (rs : List Ptr) (out : Bytes) (p : Ptr)
    → m'.results ≡ (with_result m out).results
    → m.brk ≤ m'.brk
    → Held m cs rs
    → Held m' (cs ++ (p, m.brk) ∷ []) rs
with_result-Held m m' cs xs rs out p same le =
    Held-frame m m' cs (cs ++ (p, m.brk) ∷ []) rs (λ r x i loose. record {
      ne_null = loose.ne_null;
      below = omega (arith, loose.below);
      at =
          ap (λ h. h r) same
          ∙ write_ne _ m.brk r _ (λ e. absurd (omega (arith, loose.below)))
          ∙ write_ne _ m.brk r _ (λ e. absurd (omega (arith, loose.below)))
          ∙ loose.at;
      unqueued = has_data-snoc r p m.brk cs ∙ ground (arith, loose.unqueued, loose.below);
      is_result = loose.is_result;
    })

abbrev pub Kept : List Ptr → Bool × ResultQueue × Memory → Type 0
Kept rs (done, q, m) = IsSound m q rs

fits-Kept :
    (out_file : Ptr) (out : Bytes) (m : Memory) (q : ResultQueue) (rs : List Ptr)
    → IsSound m q rs
    → 2 ≤ m.room
    → length out ≤ max_cmd_out_buf + 2
    → Whenever (Kept rs) (queue_output out_file (contents out) q m)
unfolding queue_output
fits-Kept out_file out m q rs is room h =
    let queue = is.queue in
    let new = with_result m out in
    rw
      (
        cmdresult_malloc-ok (length out) m room,
        load-some (write m.results m.brk (some (zeroed (buffer_size (length out))))) m.brk
            (zeroed (buffer_size (length out))) (λ e. absurd (omega (arith, queue.below.0)))
            (write_self _ _ _),
        read_result-stored out h,
      )
      (Whenever->>= (Inserted new m.brk is.cells (is.results ++ stored out ∷ [])) (Kept rs)
        (insert_queue q m.brk new) _
        (insert_queue-Inserted new q m.brk (stored out) is.cells is.results
          (with_result-IsQueue m q is.cells is.results out queue h)
          (with_result-IsLoose m q is.cells is.results out queue h))
        (λ (q', m') (queue', (same, grown)).
          Whenever-then (Kept rs) (free_unset out_file) _ (λ done. record {
            cells = is.cells ++ (new.brk, m.brk) ∷ [];
            results = is.results ++ stored out ∷ [];
            queue = queue';
            held =
                with_result-Held m m' is.cells is.results rs out new.brk same (omega (arith, grown))
                  is.held;
          })))

long-Kept :
    (out_file : Ptr) (out : Bytes) (m : Memory) (q : ResultQueue)
    → 2 ≤ m.room
    → m.brk ≢ null
    → max_cmd_out_buf + 2 < length out
    → queue_output out_file (contents out) q m ≡ fault
unfolding queue_output read_result
long-Kept out_file out m q room ne h =
    let size = buffer_size (length out) in
    let outside : leb (length out) (length (replicate {A = ℕ} size 0)) ≡ false =
      ground (arith, length-replicate {A = ℕ} size 0) in
    rw
      (
        cmdresult_malloc-ok (length out) m room,
        load-some (write m.results m.brk (some (zeroed size))) m.brk (zeroed size) ne
            (write_self _ _ _),
        outside,
      )
      refl

-- Whatever the output and the memory, a call that returns leaves a well-formed queue and the results that
-- are held.
pub queue_output-Kept :
    (out_file : Ptr) (o : OutFile) (m : Memory) (q : ResultQueue) (rs : List Ptr)
    → IsSound m q rs
    → Whenever (Kept rs) (queue_output out_file o q m)
unfolding queue_output
queue_output-Kept out_file unopened m q rs is = is
queue_output-Kept out_file unsized m q rs is =
    Whenever-then (Kept rs) (free_unset out_file) _ (λ done. is)
queue_output-Kept out_file (contents out) m q rs is = elim (Bool-cases (leb 2 m.room)) [
  | inl room ↦ elim (Bool-cases (leb (length out) (max_cmd_out_buf + 2))) [
    | inl h ↦ fits-Kept out_file out m q rs is (ground arith) (ground arith)
    | inr h ↦
        rw
          (long-Kept out_file out m q (ground arith) (λ e. absurd (omega (arith, is.queue.below.0)))
            (ground arith))
          tt
  ]
  | inr few ↦ rw (cmdresult_malloc-full (length out) m (ground arith)) tt
]
