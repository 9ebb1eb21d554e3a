-- ===== src/Ping.antt =====
-- smartac_ping.c: one `ping`, and the thread of smartac_post_result.c that posts a result. The network,
-- what the AC server answers, the host's files and commands, and the shell are parameters.
pub mod Post
pub mod Answer
pub mod Sound
pub mod Freed
pub mod Collected
pub mod Leaked
use smart_ac.Base.{
  ℕ, ◌+◌, ◌-◌, Bool, true, false, Option, none, some, List, [], ◌∷◌, ◌++◌, Bytes, ◌==◌,
  if◌then◌else◌, length, take,
}
use smart_ac.Clients.{
  Client, Traffic, Lists, destory_client_list, destory_traffic_list, get_traffic_to_client,
}
use smart_ac.Clients.Files.{init_client_list, init_traffic_list}
use smart_ac.Clients.Json.{Host, max_string_len}
use smart_ac.Clients.Json.Report.{holds, build_ping_json_data, update_ac_information}
use smart_ac.Config.{AcServer, Config, State}
use smart_ac.Cstring.{codes, find_from}
use smart_ac.Cstring.Number.{print}
use smart_ac.Http.Connect.{connect_ac_server}
use smart_ac.Http.Get.{Event, Exchange, http_get}
use smart_ac.Http.Network.{Network}
use smart_ac.Outcome.{Outcome, ok, ◌>>=◌}
use smart_ac.Queue.{ResultQueue, Memory}
use smart_ac.Remote.{
  Shell, get_remote_shell_command, excute_remote_shell_command, post_request, version,
}
use smart_ac.Store.{Ptr, null, node, write, load}

-- What a node holds before it is filled: memory that `malloc` returns.
pub record Unfilled : Type 0 where
  pub client : Client
  pub traffic : Traffic
  pub client_next : Ptr
  pub traffic_next : Ptr

abbrev pub client_node : Unfilled → Lists → Lists
client_node u m = record m {
  clients = write m.clients m.brk (some (node u.client u.client_next));
  brk = m.brk + 1;
  room = m.room - 1;
}

abbrev pub traffic_node : Unfilled → Lists → Lists
traffic_node u m = record m {
  traffics = write m.traffics m.brk (some (node u.traffic u.traffic_next));
  brk = m.brk + 1;
  room = m.room - 1;
}

-- A string that `%s` prints, as the C library prints a null pointer.
abbrev pub shown : Option Bytes → Bytes
shown none = codes "(null)"
shown (some s) = s

-- `DHCP_LEASES_FILE` and `TRAFFIC_FILE`
abbrev pub dhcp_leases_file : Bytes
dhcp_leases_file = codes "/tmp/dhcp.leases"

abbrev pub traffic_file : Bytes
traffic_file = codes "/tmp/.client.traffic.info"

module _ (behind : Bytes) (unfilled : Unfilled) (host : Host) (config : Config) where
  -- From the two lists to the text; `none` where `ping` returns early.
  unfoldable pub report : Ptr → Ptr → Lists → Outcome (Option Bytes × Lists)
  report c_list t_list m = do
    m ← get_traffic_to_client c_list t_list m
    json ← build_ping_json_data host config (some max_string_len) (shown config.gw_ac_id) c_list m
    m ← destory_client_list c_list m
    m ← destory_traffic_list t_list m
    ok (json, m)

  unfoldable pub read_traffics : Ptr → Ptr → Lists → Outcome (Option Bytes × Lists)
  read_traffics c_list t_list m = do
    (ret, m) ← init_traffic_list behind unfilled.traffic t_list (host.open_file traffic_file) m
    if holds ret
        then (do m ← destory_client_list c_list m; ok (none, m))
        else report c_list t_list m

  unfoldable pub read_clients : Ptr → Ptr → Lists → Outcome (Option Bytes × Lists)
  read_clients c_list t_list m = do
    (ret, m) ← init_client_list behind unfilled.client c_list (host.open_file dhcp_leases_file) m
    if holds ret then ok (none, m) else read_traffics c_list t_list m

  -- The collection of data: the text of the ping.
  unfoldable pub collect : Lists → Outcome (Option Bytes × Lists)
  collect m = do
    _ ← update_ac_information host (codes "traffic_update")
    let c_list = m.brk
    let with_client = client_node unfilled m
    let t_list = with_client.brk
    if m.room == 0
        then ok (none, m)
        else if with_client.room == 0
        then (do m ← destory_client_list c_list with_client; ok (none, m))
        else read_clients c_list t_list (traffic_node unfilled with_client)

-- The text of the request that `ping` prints, cut to its buffer.
unfoldable pub ping_request : AcServer → Bytes → Bytes
ping_request server json = take (40960 - 2) (
    codes "POST "
    ++ server.ping_path
    ++ codes " HTTP/1.1\r\nUser-Agent: WiFiAcVer "
    ++ version
    ++ codes "\r\nContent-Type: application/json;charset=utf-8\r\nContent-Length: "
    ++ print (length json)
    ++ codes "\r\nConnection: close\r\nHost: "
    ++ server.hostname
    ++ codes "\r\n\r\n"
    ++ json)

module _ (shell : Shell) (rand : ℕ) (out_file : Ptr) where
  -- `cmdptr` is behind the bar, where there is one.
  unfoldable pub run_command : Option Bytes → ResultQueue → Memory → Outcome (ResultQueue × Memory)
  run_command none q m = ok (q, m)
  run_command (some []) q m = ok (q, m)
  run_command (some (bar ∷ cmdptr)) q m = do
    command ← get_remote_shell_command cmdptr
    (done, q, m) ← excute_remote_shell_command shell rand out_file command q m
    ok (q, m)

  unfoldable pub check_pong :
      Bytes → Option Bytes → ResultQueue → Memory → Outcome (ResultQueue × Memory)
  check_pong res none q m = ok (q, m)
  check_pong res (some pong) q m = run_command (find_from (codes "|") res) q m

  -- What is done with the AC server's answer.
  unfoldable pub handle_answer :
      Option Bytes → ResultQueue → Memory → Outcome (ResultQueue × Memory)
  handle_answer none q m = ok (q, m)
  handle_answer (some res) q m = check_pong res (find_from (codes "Pong") res) q m

-- The other side of a connection: the result of `send`, and what the rounds of `select` and `read`
-- bring.
module _ (net : Network) (talk : ℕ → Bytes → net.World → Option ℕ × List Event)
    (garbage : ℕ → ℕ) where
  abbrev pub Answered : Type 0
  Answered = Option Exchange × State × net.World

  -- The request and what comes back on the socket.
  unfoldable pub converse : Bytes → Option ℕ × State × net.World → Outcome Answered
  converse request (none, s, w) = ok (none, s, w)
  converse request (some sockfd, s, w) = do
    let (sent, events) = talk sockfd request w
    e ← http_get garbage (some sockfd) request sent events
    ok (some e, s, w)

  -- A request is sent to the first AC server that can be reached; `none` where none can.
  unfoldable pub exchange : Bytes → State → net.World → Outcome Answered
  exchange request s w = do connected ← connect_ac_server net s w; converse request connected

  -- `thread_post_result`; its caller hands over the result.
  unfoldable pub thread_post_result :
      Ptr → State → Memory → net.World → Outcome (Option Exchange × State × Memory × net.World)
  thread_post_result args s m w = if args == null then ok (none, s, m, w) else do
    server ← load s.servers s.config.ac_servers
    (request, m) ← post_request server.value args m
    (answer, s, w) ← exchange request s w
    ok (answer, s, m, w)

  -- `ping` behind the collection of data.
  abbrev pub response_of : Option Exchange → Option Bytes
  response_of none = none
  response_of (some e) = e.response

  module _ (shell : Shell) (rand : ℕ) (out_file : Ptr) where
    unfoldable pub send_ping :
        Option Bytes
        → State
        → ResultQueue
        → Memory
        → net.World
        → Outcome (State × ResultQueue × Memory × net.World)
    send_ping none s q m w = ok (s, q, m, w)
    send_ping (some json) s q m w = do
      server ← load s.servers s.config.ac_servers
      (answer, s, w) ← exchange (ping_request server.value json) s w
      (q, m) ← handle_answer shell rand out_file (response_of answer) q m
      ok (s, q, m, w)

    unfoldable pub ping :
        Bytes
        → Unfilled
        → Host
        → Lists
        → State
        → ResultQueue
        → Memory
        → net.World
        → Outcome (Lists × State × ResultQueue × Memory × net.World)
    ping behind unfilled host lists s q m w = do
      (json, lists) ← collect behind unfilled host s.config lists
      (s, q, m, w) ← send_ping json s q m w
      ok (lists, s, q, m, w)
