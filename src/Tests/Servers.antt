-- ===== src/Tests/Servers.antt =====
-- The list of servers on concrete states.
use smart_ac.Base.{ℕ, ◌≡◌, refl, none, some, [], ◌∷◌, Bytes, arith}
use smart_ac.Config.{AcServer, State}
use smart_ac.Config.Servers.{mark_ac_server_bad, IsServers}
use smart_ac.Config.Servers.Rotate.{mark_ac_server_bad-rotate}
use smart_ac.Cstring.{codes}
use smart_ac.Cstring.Number.{pos}
use smart_ac.Outcome.{Returns}
use smart_ac.Store.{Cells, node, write}
use smart_ac.Tests.Config.{blank}

abbrev pub server : Bytes → ℕ → AcServer
server host port = record {
  hostname = host;
  ping_path = codes "/ping?";
  result_path = codes "/result?";
  port = pos port;
  last_ip = none;
}

abbrev pub two_cells : Cells AcServer
two_cells = (1, server (codes "a.com") 80) ∷ (2, server (codes "b.com") 81) ∷ []

abbrev pub two_servers : State
two_servers = record blank {
  config = record blank.config { ac_servers = 1 };
  servers =
      write (write (λ _. none) 1 (some (node (server (codes "a.com") 80) 2))) 2
        (some (node (server (codes "b.com") 81) 0));
  brk = 3;
}

pub two_servers-IsServers : IsServers two_servers two_cells
unfolding write
two_servers-IsServers = record {
  head = refl;
  chain = (omega arith, refl, refl, (omega arith, refl, refl, tt));
  below = (omega arith, (omega arith, tt));
  counted = omega arith;
}

mark_ac_server_bad-rotate_example :
    Returns
      (λ s'.
        IsServers s' ((2, server (codes "b.com") 81) ∷ (1, server (codes "a.com") 80) ∷ [])
        × (s' ≡ record two_servers {
          config = record two_servers.config { ac_servers = s'.config.ac_servers };
          servers = s'.servers;
        }))
      (mark_ac_server_bad 1 two_servers)
mark_ac_server_bad-rotate_example =
    mark_ac_server_bad-rotate two_servers 1 _ _ two_servers-IsServers
