-- ===== src/Main/System/Reached.antt =====
-- What holds in every state that the running program reaches.
use mathlib.Core.Path.{subst}
use smart_ac.Base.{ℕ, ◌≤◌, Bool, Option, List, [], ◌∷◌, Bytes}
use smart_ac.Config.{AcServer}
use smart_ac.Config.Servers.{IsServers}
use smart_ac.Http.Get.{Event}
use smart_ac.Http.Network.{Network}
use smart_ac.Main.{Running, main_round}
use smart_ac.Main.Begun.{HasBegun}
use smart_ac.Main.Round.{main_round-TakenOut, main_round-Whenever}
use smart_ac.Main.System.{
  System, begun, Step, pings, rounds, posts, memory_changes, Reach, start, later,
}
use smart_ac.Outcome.{Returns, Whenever, EndsUnless}
use smart_ac.Http.Connect.Rotation.{Misprints}
use smart_ac.Ping.{thread_post_result}
use smart_ac.Ping.Post.{Posted}
use smart_ac.Ping.Sound.{HasServers, Leaves, thread_post_result-Leaves, Pinged, send_ping-Pinged}
use smart_ac.Queue.{ResultData}
use smart_ac.Queue.Held.{Held-frame, IsSound}
use smart_ac.Queue.Taken.{TakenOut}
use smart_ac.Store.{Ptr, Cells}

module _ (net : Network) where
  -- The queue and the list of servers are well formed, and each thread that posts holds a result of its own
  -- that is not in the queue and not freed.
  pub record IsWell (s : System net) : Type 0 where
    pub sound : IsSound s.memory s.queue s.posting
    pub servers : HasServers s.state

  room-IsSound :
      (s : System net) (room : ℕ)
      → IsSound s.memory s.queue s.posting
      → IsSound (record s.memory { room = room }) s.queue s.posting
  room-IsSound s room is = record {
    cells = is.cells;
    results = is.results;
    queue = record {
      chain = is.queue.chain;
      rear_is = is.queue.rear_is;
      holds = is.queue.holds;
      below = is.queue.below;
    };
    held =
        Held-frame s.memory _ is.cells is.cells s.posting
          (λ r x i loose. record {
            ne_null = loose.ne_null;
            below = loose.below;
            at = loose.at;
            unqueued = loose.unqueued;
            is_result = loose.is_result;
          })
          is.held;
  }

-- The program as its loops begin is well formed.
pub HasBegun-IsWell :
    (net : Network) (r : Running) (w : net.World) → HasBegun r → IsWell net (begun net r w)
HasBegun-IsWell net r w is = record {
  sound = record { cells = []; results = []; queue = is.queue; held = tt };
  servers = (is.ready.cells, is.ready.servers);
}

module _ (net : Network) (talk : ℕ → Bytes → net.World → Option ℕ × List Event)
    (garbage : ℕ → ℕ) where
  Step-IsWell : {s t : System net} → Step net talk garbage s t → IsWell net s → IsWell net t
  Step-IsWell {s} (pings shell rand out_file json e) is =
      let (sound, servers) =
        subst (Whenever (Pinged net talk garbage shell rand out_file s.posting)) e (
          send_ping-Pinged net talk garbage shell rand out_file json s.state s.queue s.memory
            s.world s.posting is.sound is.servers) in
      record { sound = sound; servers = servers }
  Step-IsWell {s} (rounds created e) is = record {
    sound =
        subst (Whenever (TakenOut s.posting)) e
          (main_round-Whenever created s.memory s.queue s.posting is.sound);
    servers = is.servers;
  }
  Step-IsWell {s} (posts {rest} picked e) is =
      let (sound, servers) = subst (Whenever (Leaves net talk garbage s.queue rest)) e (
        thread_post_result-Leaves net talk garbage s.state s.queue s.memory s.world picked is.sound
          is.servers) in
      record { sound = sound; servers = servers }
  Step-IsWell {s} (memory_changes room) is = record {
    sound = room-IsSound net s room is.sound;
    servers = is.servers;
  }

  -- Whatever the AC servers answer and in whatever order the threads' calls come, with memory that runs
  -- out or not, every state that the program reaches from a well-formed one is well formed: the queue, the
  -- list of servers, and a result of its own, not in the queue and not freed, for each thread that posts.
  pub Reach-IsWell : {s t : System net} → Reach net talk garbage s t → IsWell net s → IsWell net t
  Reach-IsWell start is = is
  Reach-IsWell (later r st) is = Step-IsWell st (Reach-IsWell r is)

  -- In every state that the program reaches from a well-formed one, with memory for two allocations, the
  -- next round of the main loop returns, without a fault, and leaves the queue well formed and each
  -- result that a thread holds, the one just taken out included, apart from the others and the queue.
  pub Reach-round :
      {s t : System net} (created : Bool)
      → Reach net talk garbage s t
      → IsWell net s
      → 2 ≤ t.memory.room
      → Returns (TakenOut t.posting) (main_round created t.queue t.memory)
  Reach-round {t} created r is room =
      main_round-TakenOut created t.memory t.queue t.posting (Reach-IsWell r is).sound room

  -- The thread that holds `x` at `r` ends: it has sent the result to the list of servers that there is and
  -- freed it, or the process ended as failed, or `socket` fails in this network and its message is logged.
  pub record IsPosting (s : System net) (r : Ptr) (x : ResultData) : Type 0 where
    pub address : Ptr
    pub server : AcServer
    pub others : Cells AcServer
    pub servers : IsServers s.state ((address, server) ∷ others)
    pub ends :
        EndsUnless
          (Misprints net s.state.debugconf.debuglevel)
          (Posted net talk garbage r x server ((address, server) ∷ others) s.state s.memory s.world)
          (thread_post_result net talk garbage r s.state s.memory s.world)
