-- ===== src/Main.antt =====
-- smartac.c: the start of the program, from its arguments to its main loop, and the loop. What the kernel
-- answers is the record `Machine`.
pub mod Signals
pub mod Prepared
pub mod Addresses
pub mod Started
pub mod Begun
pub mod Terminated
pub mod Round
pub mod System
use smart_ac.Base.{
  ℕ, ◌+◌, Bool, true, false, not, Option, none, some, List, [], ◌∷◌, Bytes, ◌==◌, ltb,
  if◌then◌else◌,
}
use smart_ac.Clients.Json.{Host}
use smart_ac.Clients.Json.Report.{is_zero}
use smart_ac.CommandLine.{parse_commandline}
use smart_ac.Config.{Config, State, config_init, config_validate}
use smart_ac.Config.Read.{config_read}
use smart_ac.Cstring.Number.{ℤ}
use smart_ac.Interfaces.{Ioctl, Process, get_iface_ip, get_iface_mac, init_excute_outdir}
use smart_ac.Interfaces.Route.{get_ext_iface}
use smart_ac.Main.Signals.{Signal, Handlers, init_signals, termination_handler}
use smart_ac.Outcome.{Outcome, ok, exits, fault, ◌>>=◌, deref}
use smart_ac.Queue.{ResultQueue, Memory, cmdresult_free, getout_queue, initial_queue}
use smart_ac.Safe.{Descriptors, is_child, safe_fork}
use smart_ac.Store.{Ptr, null}

-- What the kernel answers: the routing table at each try, of which `tries` are made at most; whether there
-- are sockets, and memory for the strings; the two calls of `ioctl`; the processes by command line; the
-- time; for which signals `sigaction` succeeds; whether the ping thread can be created.
pub record Machine : Type 0 where
  pub tables : ℕ → Option Bytes
  pub tries : ℕ
  pub ip_socket : Bool
  pub mac_socket : Bool
  pub found : Bool
  pub address : Ioctl
  pub hardware_address : Ioctl
  pub processes : Bytes → Process
  pub now : ℕ
  pub works : Signal → Bool
  pub created : Bool
  pub host : Host

-- The globals of the program.
pub record Running : Type 0 where
  pub state : State
  pub queue : ResultQueue
  pub memory : Memory
  pub descriptors : Descriptors
  pub handlers : Handlers
  pub started_time : ℕ
  pub pinging : Bool

-- `MINIMUM_STARTED_TIME`
abbrev pub minimum_started_time : ℕ
minimum_started_time = 1041379200

unfoldable pub set_started_time : ℕ → ℕ → ℕ
set_started_time now started =
    if started == 0 then now else if ltb started minimum_started_time then now else started

-- A setting that is kept where there is one, and else searched for; the process ends where that finds
-- none.
abbrev pub required : Option Bytes → Outcome Bytes
required none = exits 1
required (some s) = ok s

abbrev pub keep_or_find : Option Bytes → Outcome (Option Bytes) → Outcome Bytes
keep_or_find (some s) search = ok s
keep_or_find none search = do r ← search; required r

-- The search for the interface counts as a fault where it has not ended after the tries.
abbrev pub ended : Option (Outcome (Option Bytes)) → Outcome (Option Bytes)
ended none = fault
ended (some o) = o

module _ (machine : Machine) where
  unfoldable pub find_interface : Config → Outcome Config
  find_interface config = do
    name ← keep_or_find config.gw_ac_interface (ended (get_ext_iface machine.tries machine.tables))
    ok (record config { gw_ac_interface = some name })

  -- The functions are called with a pointer that must not be null.
  unfoldable pub ip_of : Option Bytes → Outcome (Option Bytes)
  ip_of interface = do
    name ← deref interface
    get_iface_ip machine.ip_socket machine.found machine.address name

  unfoldable pub find_ip_address : Config → Outcome Config
  find_ip_address config = do
    ip ← keep_or_find config.gw_ac_ip_address (ip_of config.gw_ac_interface)
    ok (record config { gw_ac_ip_address = some ip })

  unfoldable pub mac_of : Option Bytes → Outcome (Option Bytes)
  mac_of interface = do
    name ← deref interface
    get_iface_mac machine.mac_socket machine.found machine.hardware_address name

  -- The identifier is the address where it was not set; `safe_strdup` may end the process.
  abbrev pub id_or : Option Bytes → Bytes → Outcome (Option Bytes)
  id_or (some id) mac = ok (some id)
  id_or none mac = if machine.found then ok (some mac) else exits 1

  abbrev pub mac_or_find : Option Bytes → Config → Outcome Config
  mac_or_find (some mac) config = ok config
  mac_or_find none config = do
    r ← mac_of config.gw_ac_interface
    mac ← required r
    id ← id_or config.gw_ac_id mac
    ok (record config { gw_ac_mac_address = some mac; gw_ac_id = id })

  unfoldable pub find_mac_address : Config → Outcome Config
  find_mac_address config = mac_or_find config.gw_ac_mac_address config

  -- The three searches in their order.
  unfoldable pub find_settings : Config → Outcome Config
  find_settings config = do
    config ← find_interface config
    config ← find_ip_address config
    find_mac_address config

  unfoldable pub start_ping : Running → Outcome Running
  start_ping r =
      if machine.created
      then ok (record r { pinging = true })
      else (do _ ← termination_handler false r.pinging machine.host 0 r.queue r.memory; ok r)

  -- `initial_queue`, `init_signals` and the ping thread
  unfoldable pub start_work : Running → Outcome Running
  start_work r = do
    (queue, memory) ← initial_queue r.memory
    handlers ← init_signals machine.works r.handlers
    start_ping (record r { queue = queue; memory = memory; handlers = handlers })

  -- `main_loop` up to its loop
  unfoldable pub start_up : Running → Outcome Running
  start_up r = do
    config ← find_settings r.state.config
    (made, descriptors) ← init_excute_outdir machine.processes r.descriptors
    let r = record r {
      state = record r.state { config = config };
      descriptors = descriptors;
      started_time = set_started_time machine.now r.started_time;
    }
    if made then start_work r else exits 1

-- The result that the thread which posts it is created for, or null: one round of the loop.
unfoldable pub main_round : Bool → ResultQueue → Memory → Outcome (Ptr × ResultQueue × Memory)
main_round created q m = do
  (cmdrets, q, m) ← getout_queue q m
  let free = (do m ← cmdresult_free cmdrets m; ok (null, q, m))
  if cmdrets == null then ok (null, q, m) else if created then ok (cmdrets, q, m) else free

-- What the program is started with: the value that the variable `i` of `parse_commandline` happens to
-- have, how `getopt` takes operands, the arguments, and the files that can be read.
pub record Arguments : Type 0 where
  pub i : ℤ
  pub permute : Bool
  pub argv0 : Bytes
  pub args : List Bytes
  pub files : Bytes → Option Bytes

-- `smartac_main` up to `config_validate`
unfoldable pub prepare : Arguments → State → Outcome State
prepare a s = do
  (s, restartargv) ← parse_commandline a.i a.permute a.argv0 a.args (config_init s)
  s ← config_read (a.files s.config.config_file) s
  config_validate s

-- In the background: the parent exits, and the child goes on. `forked` is what `fork` returns.
unfoldable pub go_to_background : ℤ → Machine → Running → Outcome Running
go_to_background forked machine r = do
  (pid, descriptors) ← safe_fork forked r.descriptors
  if is_child pid then start_up machine (record r { descriptors = descriptors }) else exits 0

-- `smartac_main` up to the loop of `main_loop`, in the process that gets there. The wait for a parent that
-- restarts the program is left out: nothing ever sets `restart_orig_pid`.
unfoldable pub smartac_main : Arguments → ℤ → Machine → Running → Outcome Running
smartac_main a forked machine r = do
  s ← prepare a r.state
  let r = record r { state = s }
  if is_zero s.config.daemon then start_up machine r else go_to_background forked machine r
