-- ===== src/Tests/Queue.antt =====
-- The result queue on concrete memories.
use smart_ac.Base.{zero, suc, ◌+◌, ◌≡◌, refl, Option, none, some, [], ◌∷◌, arith}
use smart_ac.Outcome.{Outcome, ok, fault, Returns, ◌>>=◌}
use smart_ac.Queue.{
  ResultData, Memory, ResultQueue, safe_malloc, initial_queue, insert_queue, getout_queue,
  destroy_queue, copy_result, zeroed, buffer_size, cmdresult_malloc, cmdresult_free,
}
use smart_ac.Queue.Destroy.{destroy_queue-fault}
use smart_ac.Queue.Getout.{getout_queue-IsQueue}
use smart_ac.Queue.Insert.{insert_queue-IsQueue}
use smart_ac.Queue.Results.{copied, copy_result-ok}
use smart_ac.Queue.Shape.{IsResult, IsLoose, IsQueue}
use smart_ac.Store.{node, write, load}

abbrev pub hi : ResultData
hi = record { result = 104 ∷ 105 ∷ 0 ∷ []; size = 3; c_size = 2 }

pub hi-IsResult : IsResult hi
hi-IsResult = record { sized = refl; bounded = omega arith }

-- An empty queue with its sentinel at 1, and a result at 2 that is not in it.
abbrev pub empty_memory : Memory
empty_memory = record {
  nodes = λ p. elim p [ zero ↦ none | suc q ↦ elim q [ zero ↦ some (node 0 0) | suc _ ↦ none ] ];
  results = λ p. elim p [
    | zero ↦ none
    | suc q ↦ elim q [ zero ↦ none | suc r ↦ elim r [ zero ↦ some hi | suc _ ↦ none ] ]
  ];
  brk = 3;
  room = 9;
}

abbrev pub empty : ResultQueue
empty = record { front = 1; rear = 1 }

pub empty-IsQueue : IsQueue empty_memory empty [] []
empty-IsQueue = record {
  chain = (omega arith, refl, refl, tt);
  rear_is = refl;
  holds = tt;
  below = (omega arith, tt);
}

hi-IsLoose : IsLoose empty_memory [] 2 hi
hi-IsLoose = record {
  ne_null = omega arith;
  below = omega arith;
  at = refl;
  unqueued = refl;
  is_result = hi-IsResult;
}

insert_queue-IsQueue_example :
    Returns
      (λ (q, m). (m.room + 1 ≡ 9) × IsQueue m q ((3, 2) ∷ []) (hi ∷ []))
      (insert_queue empty 2 empty_memory)
insert_queue-IsQueue_example =
    insert_queue-IsQueue empty_memory empty [] [] empty-IsQueue 2 hi (omega arith) hi-IsLoose

-- The queue after that call.
abbrev pub one_memory : Memory
one_memory = record empty_memory {
  nodes = write (write empty_memory.nodes 3 (some (node 2 0))) 1 (some (node 0 3));
  brk = 4;
  room = 8;
}

abbrev pub one : ResultQueue
one = record { front = 1; rear = 3 }

pub one-IsQueue : IsQueue one_memory one ((3, 2) ∷ []) (hi ∷ [])
unfolding write
one-IsQueue = record {
  chain = (omega arith, refl, refl, (omega arith, refl, refl, tt));
  rear_is = refl;
  holds = (omega arith, omega arith, refl, refl, hi-IsResult, tt);
  below = (omega arith, (omega arith, tt));
}

getout_queue-IsQueue_example :
    Returns
      (λ (r, q, m).
        IsLoose m [] r (copied hi) × (m.results 2 ≡ none) × (m.room + 2 ≡ 8) × IsQueue m q [] [])
      (getout_queue one one_memory)
getout_queue-IsQueue_example =
    getout_queue-IsQueue one_memory one 3 2 [] hi [] one-IsQueue (omega arith)

destroy_queue-fault_example : destroy_queue one one_memory ≡ fault
destroy_queue-fault_example = destroy_queue-fault one_memory one ((3, 2) ∷ []) (hi ∷ []) one-IsQueue

copy_result-ok_example : copy_result (zeroed (buffer_size 3)) hi ≡ ok (copied hi)
copy_result-ok_example = copy_result-ok hi hi-IsResult

-- What comes out of a fresh queue: the result that was put in.
put_and_get : Outcome (Option ResultData)
unfolding initial_queue insert_queue getout_queue cmdresult_malloc cmdresult_free safe_malloc
    copy_result load write
put_and_get = do
  (q, m) ← initial_queue empty_memory
  (q, m) ← insert_queue q 2 m
  (r, q, m) ← getout_queue q m
  ok (m.results r)

put_and_get_lem :
    put_and_get ≡ ok (some (record { result = 104 ∷ 105 ∷ 0 ∷ 0 ∷ []; size = 4; c_size = 2 }))
unfolding put_and_get
put_and_get_lem = refl
