-- ===== src/Queue/Destroy.antt =====
-- `destroy_queue` on a well-formed queue.
use smart_ac.Base.{ℕ, zero, suc, ◌+◌, ◌≡◌, refl, false, List, ◌==◌, arith}
use smart_ac.Outcome.{fault}
use smart_ac.Store.{Ptr, null, load, Cells}
use smart_ac.Store.Linked.{load-Linked}
use smart_ac.Queue.{ResultData, Memory, ResultQueue, cmdresult_free, destroy_loop, destroy_queue}
use smart_ac.Queue.Shape.{IsQueue}

-- Freeing `NULL` as a result reads through the null pointer.
pub cmdresult_free-null : (m : Memory) → cmdresult_free null m ≡ fault
unfolding cmdresult_free load
cmdresult_free-null m = refl

destroy_loop-fault :
    (fuel : ℕ) (m : Memory) (q : ResultQueue) (cs : Cells Ptr) (xs : List ResultData)
    → IsQueue m q cs xs
    → destroy_loop fuel q m ≡ fault
unfolding destroy_loop
destroy_loop-fault zero m q cs xs is = refl
destroy_loop-fault (suc fuel) m q cs xs is =
    let front_ne : (q.front == null) ≡ false = ground (arith, is.chain.0) in
    rw (front_ne, load-Linked m.nodes null q.front null cs is.chain, cmdresult_free-null m)

-- `destroy_queue` dereferences a null pointer on every well-formed queue, whatever it holds.
pub destroy_queue-fault :
    (m : Memory) (q : ResultQueue) (cs : Cells Ptr) (xs : List ResultData)
    → IsQueue m q cs xs
    → destroy_queue q m ≡ fault
unfolding destroy_queue
destroy_queue-fault m q cs xs is = destroy_loop-fault (m.brk + 1) m q cs xs is
