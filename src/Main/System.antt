-- ===== src/Main/System.antt =====
-- The running program: the ping thread, the main loop and the threads that post results, one call after
-- another in any order. The calls on the queue and on the connection run under a mutex, and every other
-- step works on what its thread alone holds.
pub mod Reached
use smart_ac.Base.{ℕ, ◌≡◌, Bool, Option, List, [], ◌∷◌, Bytes}
use smart_ac.Config.{State}
use smart_ac.Http.Get.{Event, Exchange}
use smart_ac.Http.Network.{Network}
use smart_ac.Main.{Running, main_round}
use smart_ac.Outcome.{ok}
use smart_ac.Ping.{send_ping, thread_post_result}
use smart_ac.Queue.{ResultQueue, Memory}
use smart_ac.Queue.Held.{Picked}
use smart_ac.Queue.Taken.{with_taken}
use smart_ac.Remote.{Shell}
use smart_ac.Store.{Ptr}

-- `posting` holds the results that threads were created for and have not posted yet.
pub record System (net : Network) : Type 0 where
  pub state : State
  pub queue : ResultQueue
  pub memory : Memory
  pub world : net.World
  pub posting : List Ptr

-- No thread posts yet when the loops begin.
abbrev pub begun : (net : Network) → Running → net.World → System net
begun net r w = record {
  state = r.state;
  queue = r.queue;
  memory = r.memory;
  world = w;
  posting = [];
}

module _ (net : Network) (talk : ℕ → Bytes → net.World → Option ℕ × List Event)
    (garbage : ℕ → ℕ) where
  -- The ping thread sends what it collected and handles the answer, whatever that is; the main loop makes a
  -- round, and the thread for the result can be created or not; a thread posts its result; and the
  -- memory that is left for allocations changes.
  pub data Step (s : System net) : System net → Type 0 where
    pings :
        (shell : Shell) (rand : ℕ) (out_file : Ptr) (json : Option Bytes) {state : State}
        {queue : ResultQueue} {memory : Memory} {world : net.World}
        → send_ping net talk garbage shell rand out_file json s.state s.queue s.memory s.world
          ≡ ok (state, queue, memory, world)
        → Step s (record {
          state = state;
          queue = queue;
          memory = memory;
          world = world;
          posting = s.posting;
        })
    rounds :
        (created : Bool) {r : Ptr} {queue : ResultQueue} {memory : Memory}
        → main_round created s.queue s.memory ≡ ok (r, queue, memory)
        → Step s (record {
          state = s.state;
          queue = queue;
          memory = memory;
          world = s.world;
          posting = with_taken r s.posting;
        })
    posts :
        {r : Ptr} {rest : List Ptr} {answer : Option Exchange} {state : State} {memory : Memory}
        {world : net.World}
        → Picked r s.posting rest
        → thread_post_result net talk garbage r s.state s.memory s.world
          ≡ ok (answer, state, memory, world)
        → Step s (record {
          state = state;
          queue = s.queue;
          memory = memory;
          world = world;
          posting = rest;
        })
    memory_changes :
        (room : ℕ)
        → Step s (record {
          state = s.state;
          queue = s.queue;
          memory = record s.memory { room = room };
          world = s.world;
          posting = s.posting;
        })

  pub data Reach (s : System net) : System net → Type 0 where
    start : Reach s s
    later : {t u : System net} → Reach s t → Step t u → Reach s u
