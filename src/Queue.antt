-- ===== src/Queue.antt =====
-- smartac_resultqueue.c and smartac_resultqueue.h: the queue of command results, a linked list with
-- a sentinel node in front. Its operations run under `queue_mutex`, so each is one atomic step here.
-- A buffer belongs to its `t_result` alone and is kept inside it.
pub mod Shape
pub mod Results
pub mod Insert
pub mod Getout
pub mod Destroy
pub mod Held
pub mod Taken
use smart_ac.Base.{
  ℕ, zero, suc, ◌+◌, ◌-◌, ◌≡◌, Bool, Option, none, some, ◌++◌, Bytes, ◌==◌, ltb, leb, ◌&&◌,
  if◌then◌else◌, length, take, drop, replicate,
}
use smart_ac.Outcome.{Outcome, ok, exits, fault, ◌>>=◌, within}
use smart_ac.Store.{Ptr, null, Store, Node, node, write, load}

-- `MAX_CMD_OUT_BUF`
abbrev pub max_cmd_out_buf : ℕ
max_cmd_out_buf = 20480

-- `struct _result_data`
pub record ResultData : Type 0 where
  pub result : Bytes
  pub size : ℕ
  pub c_size : ℕ

-- The heap: the queue nodes (`value` is `data`), the results, the address that the next allocation
-- returns, and how many more allocations succeed.
pub record Memory : Type 0 where
  pub nodes : Store (Node Ptr)
  pub results : Store ResultData
  pub brk : ℕ
  pub room : ℕ

-- `struct _result_queue`
pub record ResultQueue : Type 0 where
  pub front : Ptr
  pub rear : Ptr

-- The process ends where `malloc` fails.
unfoldable pub safe_malloc : Memory → Outcome (Ptr × Memory)
safe_malloc m =
    if m.room == 0 then exits 1 else ok (m.brk, record m { brk = m.brk + 1; room = m.room - 1 })

-- The size of the buffer for a result of `n` bytes.
abbrev pub buffer_size : ℕ → ℕ
buffer_size n = (if ltb (max_cmd_out_buf + 1) n then max_cmd_out_buf + 1 else n) + 1

abbrev pub zeroed : ℕ → ResultData
zeroed n = record { result = replicate n 0; size = n; c_size = 0 }

unfoldable pub cmdresult_malloc : ℕ → Memory → Outcome (Ptr × Memory)
cmdresult_malloc buf_size m = do
  (buf, m) ← safe_malloc m
  (_, m) ← safe_malloc m
  ok (buf, record m { results = write m.results buf (some (zeroed (buffer_size buf_size))) })

unfoldable pub cmdresult_free : Ptr → Memory → Outcome Memory
cmdresult_free result m = do
  _ ← load m.results result
  ok (record m { results = write m.results result none })

unfoldable pub initial_queue : Memory → Outcome (ResultQueue × Memory)
initial_queue m = do
  (p, m) ← safe_malloc m
  ok (record { front = p; rear = p }, record m { nodes = write m.nodes p (some (node null null)) })

-- `while (queue->front) { … }`
unfoldable pub destroy_loop : ℕ → ResultQueue → Memory → Outcome (ResultQueue × Memory)
destroy_loop zero q m = fault
destroy_loop (suc fuel) q m =
    let rest = (do
      n ← load m.nodes q.front
      m ← cmdresult_free n.value m
      destroy_loop fuel (record { front = n.next; rear = n.next })
          (record m { nodes = write m.nodes q.front none })) in
    if q.front == null then ok (q, m) else rest

unfoldable pub destroy_queue : ResultQueue → Memory → Outcome (ResultQueue × Memory)
unfolding destroy_loop
destroy_queue q m = destroy_loop (m.brk + 1) q m

unfoldable pub insert_queue : ResultQueue → Ptr → Memory → Outcome (ResultQueue × Memory)
insert_queue q elem m = do
  (p, m) ← safe_malloc m
  let m = record m { nodes = write m.nodes p (some (node elem null)) }
  last ← load m.nodes q.rear
  ok (record q { rear = p }, record m { nodes = write m.nodes q.rear (some (node last.value p)) })

-- `memcpy(res->result, p->data->result, p->data->size)`, and `c_size`
unfoldable pub copy_result : ResultData → ResultData → Outcome ResultData
copy_result res d =
    within (leb d.size res.size && leb d.size (length d.result))
      (record res { result = take d.size d.result ++ drop d.size res.result; c_size = d.c_size })

-- The result's address is `NULL` where the queue is empty.
unfoldable pub getout_queue : ResultQueue → Memory → Outcome (Ptr × ResultQueue × Memory)
getout_queue q m = if q.front == q.rear then ok (null, q, m) else do
  sentinel ← load m.nodes q.front
  let p = sentinel.next
  n ← load m.nodes p
  d ← load m.results n.value
  (res, m) ← cmdresult_malloc d.size m
  fresh ← load m.results res
  copy ← copy_result fresh d
  let m = record m { results = write m.results res (some copy) }
  let m = record m { nodes = write m.nodes q.front (some (node sentinel.value n.next)) }
  let q' = record q { rear = if q.rear == p then q.front else q.rear }
  m ← cmdresult_free n.value m
  ok (res, q', record m { nodes = write m.nodes p none })
