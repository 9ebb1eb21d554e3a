-- ===== src/Tests/Main.antt =====
-- The start and the end of the program on concrete data.
use smart_ac.Base.{refl, true, false, none, some, [], arith}
use smart_ac.Clients.Json.{Host}
use smart_ac.Config.{State}
use smart_ac.Cstring.{codes, has_nul}
use smart_ac.Cstring.Number.{pos}
use smart_ac.Interfaces.Route.Detected.{get_ext_iface-Decides}
use smart_ac.Main.{Arguments, Machine, Running, prepare, start_up, smartac_main}
use smart_ac.Main.Addresses.{IsMachine}
use smart_ac.Main.Begun.{HasBegun, smartac_main-Ends}
use smart_ac.Main.Prepared.{IsReady, IsPrepared, IsText, prepare-Ends}
use smart_ac.Main.Signals.{by_default}
use smart_ac.Main.Started.{IsStarted, start_up-Ends}
use smart_ac.Outcome.{Ends}
use smart_ac.Tests.CommandLine.{args}
use smart_ac.Tests.Config.{file-has_bare_line, blank, file}
use smart_ac.Tests.Interfaces.{rows, found_default, hardware, exits_two}
use smart_ac.Tests.Queue.{empty_memory, empty}
use smart_ac.Tests.Safe.{no_descriptors, no_descriptors-IsRegistered}
use smart_ac.Tests.Servers.{two_servers, two_cells, two_servers-IsServers}
use smart_ac.Interfaces.Route.Table.{print_rows}

abbrev host : Host
host = record { stat = λ path. none; open_file = λ path. none; run = λ cmd. none }

abbrev arguments : Arguments
arguments = record {
  i = pos 0;
  permute = false;
  argv0 = codes "smartac";
  args = args;
  files = λ path. some file;
}

file-IsText : IsText (some file)
unfolding has_nul
file-IsText = (refl, file-has_bare_line)

prepare-Ends_example : Ends IsPrepared (prepare arguments blank)
prepare-Ends_example =
    prepare-Ends arguments 0 blank refl (ground arith) (λ path. file-IsText) (ground arith)

abbrev machine : Machine
machine = record {
  tables = λ i. some (print_rows rows);
  tries = 5;
  ip_socket = true;
  mac_socket = true;
  found = true;
  address = hardware;
  hardware_address = hardware;
  processes = exits_two;
  now = 1500000000;
  works = λ signal. true;
  created = true;
  host = host;
}

machine-IsMachine : IsMachine machine
machine-IsMachine = record {
  route = some (codes "eth0");
  detects =
      get_ext_iface-Decides machine.tables 0 5 (some (codes "eth0")) (λ k h. absurd (omega arith))
        found_default (ground arith);
  address_bytes = λ name. ground arith;
  hardware_bytes = λ name. ground arith;
  creates = refl;
}

abbrev running : State → Running
running s = record {
  state = s;
  queue = empty;
  memory = empty_memory;
  descriptors = no_descriptors;
  handlers = record {
    chld = by_default;
    pipe = by_default;
    term = by_default;
    quit = by_default;
    int = by_default;
  };
  started_time = 0;
  pinging = false;
}

two_servers-IsReady : IsReady two_servers
two_servers-IsReady = record {
  cells = two_cells;
  servers = two_servers-IsServers;
  some_server = λ e. ground arith;
  daemon_set = refl;
}

start_up-Ends_example :
    Ends (IsStarted (running two_servers)) (start_up machine (running two_servers))
start_up-Ends_example =
    start_up-Ends machine machine-IsMachine (running two_servers) [] two_servers-IsReady
      no_descriptors-IsRegistered (ground arith)

smartac_main-Ends_example : Ends HasBegun (smartac_main arguments (pos 0) machine (running blank))
smartac_main-Ends_example =
    smartac_main-Ends arguments 0 (pos 0) machine (running blank) [] refl (ground arith)
      (λ path. file-IsText) machine-IsMachine refl (ground arith) (ground arith)
      no_descriptors-IsRegistered
