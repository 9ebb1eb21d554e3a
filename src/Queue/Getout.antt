-- ===== src/Queue/Getout.antt =====
-- `getout_queue` against the list of results that the queue stands for.
use smart_ac.Base.{
  ◌+◌, ◌-◌, ◌≡◌, refl, sym, ap, ◌∙◌, ◌≢◌, ◌≤◌, ◌<◌, false, some, none, List, [], ◌∷◌, ◌==◌, arith,
  if◌then◌else◌,
}
use smart_ac.Outcome.{ok, exits, Returns}
use smart_ac.Store.{Ptr, null, Store, node, write, Cells, has, first, Linked}
use smart_ac.Store.Linked.{
  Below-mono, last_of, has-last_of, load-Linked, ne_of_has, not-has-cons, Linked-frame, write_self,
  write_ne, load-some,
}
use smart_ac.Queue.{ResultData, Memory, ResultQueue, buffer_size, zeroed, getout_queue}
use smart_ac.Queue.Results.{
  cmdresult_malloc-ok, cmdresult_malloc-full, copied, copied-IsResult, copy_result-ok,
  cmdresult_free-ok,
}
use smart_ac.Queue.Shape.{IsLoose, IsQueue, Holds, Holds-frame, not-has_data_of_le}

pub getout_queue-nil :
    (m : Memory) (q : ResultQueue) (xs : List ResultData)
    → IsQueue m q [] xs
    → getout_queue q m ≡ ok (null, q, m)
unfolding getout_queue
getout_queue-nil m q xs is = ground (arith, is.rear_is)

-- The memory that `getout_queue` leaves, where the first node `p` holds the result `x` at `d`.
abbrev pub taken : Memory → ResultQueue → Ptr → Ptr → Ptr → ResultData → Memory
taken m q p d next x = record {
  nodes = write (write m.nodes q.front (some (node null next))) p none;
  results =
      write
        (write (write m.results m.brk (some (zeroed (buffer_size x.size)))) m.brk (some (copied x)))
        d none;
  brk = m.brk + 1 + 1;
  room = m.room - 1 - 1;
}

module _ (m : Memory) (q : ResultQueue) (p d : Ptr) (cs : Cells Ptr) (x : ResultData)
    (xs : List ResultData) (is : IsQueue m q ((p, d) ∷ cs) (x ∷ xs)) where
  nonnull : m.brk ≢ null
  nonnull = λ e. absurd (omega (arith, is.below.0))

  not_empty : (q.front == q.rear) ≡ false
  not_empty =
      ne_of_has q.front q.rear ((p, d) ∷ cs) is.chain.2
        (ap (λ a. has a ((p, d) ∷ cs)) is.rear_is ∙ has-last_of p d cs)

  data_below : d ≢ m.brk
  data_below = λ e. absurd (omega (arith, is.holds.1))

  fresh : ResultData → Store ResultData
  fresh y = write (write m.results m.brk (some (zeroed (buffer_size x.size)))) m.brk (some y)

  fresh_data : (y : ResultData) → fresh y d ≡ some x
  unfolding fresh
  fresh_data y = write_ne _ m.brk d _ data_below ∙ write_ne _ m.brk d _ data_below ∙ is.holds.2

  pub getout_queue-cons :
      2 ≤ m.room
      → getout_queue q m
        ≡ ok (
          m.brk,
          record q { rear = if q.rear == p then q.front else q.rear },
          taken m q p d (first null cs) x,
        )
  unfolding getout_queue fresh
  getout_queue-cons room =
      rw
        (
          not_empty,
          load-Linked m.nodes null q.front null ((p, d) ∷ cs) is.chain,
          load-Linked m.nodes null p d cs is.chain.3,
          load-some m.results d x is.holds.0 is.holds.2,
          cmdresult_malloc-ok x.size m room,
          load-some (write m.results m.brk (some (zeroed (buffer_size x.size)))) m.brk _ nonnull
              (write_self _ _ _),
          copy_result-ok x is.holds.4,
        )
        (rw (
          cmdresult_free-ok
            (record {
              nodes = write m.nodes q.front (some (node null (first null cs)));
              results = fresh (copied x);
              brk = m.brk + 1 + 1;
              room = m.room - 1 - 1;
            })
            d x is.holds.0 (fresh_data (copied x))))

  pub getout_queue-full : m.room < 2 → getout_queue q m ≡ exits 1
  unfolding getout_queue
  getout_queue-full few =
      rw
        (
          not_empty,
          load-Linked m.nodes null q.front null ((p, d) ∷ cs) is.chain,
          load-Linked m.nodes null p d cs is.chain.3,
          load-some m.results d x is.holds.0 is.holds.2,
          cmdresult_malloc-full x.size m few,
        )
        refl

  -- The sentinel leads on to the second node, and `p` is gone.
  taken-chain : Linked (taken m q p d (first null cs) x).nodes null ((q.front, null) ∷ cs)
  taken-chain =
      let (apart, out) = not-has-cons q.front p d cs is.chain.2 in
      (
        is.chain.0,
        write_ne _ p q.front _ apart ∙ write_self _ _ _,
        out,
        Linked-frame m.nodes _ null cs
            (λ a i.
              write_ne _ p a _ (λ e. cc (is.chain.3.2)) ∙ write_ne _ q.front a _ (λ e. cc (out)))
            is.chain.3.3,
      )

  taken-Holds : Holds (taken m q p d (first null cs) x).results (m.brk + 1 + 1) cs xs
  taken-Holds =
      Holds-frame m.results _ m.brk (m.brk + 1 + 1) cs xs (omega arith)
        (λ e l i.
          write_ne _ d e _ (λ y. cc (is.holds.3))
          ∙ write_ne _ m.brk e _ (λ y. absurd (omega arith))
          ∙ write_ne _ m.brk e _ (λ y. absurd (omega arith)))
        is.holds.5

getout_queue-rear :
    (q : ResultQueue) (p d : Ptr) (cs : Cells Ptr)
    → q.rear ≡ (last_of p d cs).0
    → has p cs ≡ false
    → (if q.rear == p then q.front else q.rear) ≡ (last_of q.front null cs).0
getout_queue-rear q p d [] e out = ground arith
getout_queue-rear q p d ((r, f) ∷ cs) e out =
    let found = ap (λ a. has a ((r, f) ∷ cs)) e ∙ has-last_of r f cs in
    ground (arith, ne_of_has p q.rear ((r, f) ∷ cs) out found)

-- On a well-formed queue whose oldest result is `x`, with memory for two allocations, `getout_queue`
-- takes up that memory, hands out a copy of `x` at an address that the queue does not hold, frees `x`,
-- and leaves the well-formed queue of the others.
pub getout_queue-IsQueue :
    (m : Memory) (q : ResultQueue) (p d : Ptr) (cs : Cells Ptr) (x : ResultData)
    (xs : List ResultData)
    → IsQueue m q ((p, d) ∷ cs) (x ∷ xs)
    → 2 ≤ m.room
    → Returns
        (λ (r, q', m').
          IsLoose m' cs r (copied x)
          × (m'.results d ≡ none)
          × (m'.room + 2 ≡ m.room)
          × IsQueue m' q' cs xs)
        (getout_queue q m)
getout_queue-IsQueue m q p d cs x xs is room = rw (getout_queue-cons m q p d cs x xs is room) (
  record {
    ne_null = nonnull m q p d cs x xs is;
    below = omega arith;
    at = write_ne _ d m.brk _ (λ e. data_below m q p d cs x xs is (sym e)) ∙ write_self _ _ _;
    unqueued = not-has_data_of_le m.results m.brk m.brk cs xs (omega arith) is.holds.5;
    is_result = copied-IsResult x is.holds.4;
  },
  write_self _ _ _,
  omega arith,
  record {
    chain = taken-chain m q p d cs x xs is;
    rear_is = getout_queue-rear q p d cs is.rear_is is.chain.3.2;
    holds = taken-Holds m q p d cs x xs is;
    below = (omega (arith, is.below.0), Below-mono m.brk _ cs (omega arith) is.below.1.1);
  },
)
