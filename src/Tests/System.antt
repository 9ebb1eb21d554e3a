-- ===== src/Tests/System.antt =====
-- The running program, from a queue with one result.
use smart_ac.Base.{ℕ, refl, true, [], ◌∷◌, arith}
use smart_ac.Main.{main_round}
use smart_ac.Main.System.{System, Reach, start, later, rounds, memory_changes}
use smart_ac.Main.System.Reached.{IsWell, Reach-IsWell, Reach-round}
use smart_ac.Outcome.{Returns}
use smart_ac.Queue.{getout_queue, cmdresult_malloc, cmdresult_free, safe_malloc, copy_result}
use smart_ac.Queue.Taken.{TakenOut}
use smart_ac.Store.{load, write}
use smart_ac.Tests.Http.{net}
use smart_ac.Tests.Ping.{talk}
use smart_ac.Tests.Queue.{one, one_memory, one-IsQueue, hi}
use smart_ac.Tests.Servers.{two_servers, two_cells, two_servers-IsServers}

abbrev waiting : System net
waiting = record { state = two_servers; queue = one; memory = one_memory; world = 3; posting = [] }

waiting-IsWell : IsWell net waiting
waiting-IsWell = record {
  sound = record { cells = (3, 2) ∷ []; results = hi ∷ []; queue = one-IsQueue; held = tt };
  servers = (two_cells, two_servers-IsServers);
}

abbrev garbage : ℕ → ℕ
garbage i = i

-- The main loop has handed the result to a thread, and memory is short.
taking : (t : System net) × Reach net talk garbage waiting t
unfolding main_round getout_queue cmdresult_malloc cmdresult_free safe_malloc copy_result load write
taking = (_, later (later start (rounds true refl)) (memory_changes 2))

Reach-IsWell_example : IsWell net taking.0
Reach-IsWell_example = Reach-IsWell net talk garbage taking.1 waiting-IsWell

Reach-round_example :
    Returns (TakenOut taking.0.posting) (main_round true taking.0.queue taking.0.memory)
unfolding taking
Reach-round_example = Reach-round net talk garbage true taking.1 waiting-IsWell (ground arith)
