-- ===== src/Ping/Sound.antt =====
-- What the two threads that talk to the AC server leave of the queue, the results and the servers.
use mathlib.Core.Path.{subst}
use smart_ac.Base.{
  ℕ, ◌≡◌, ◌≢◌, refl, sym, false, Option, some, none, List, [], ◌∷◌, Bytes, ◌==◌, arith,
}
use smart_ac.Config.{AcServer, State}
use smart_ac.Config.Servers.{IsServers}
use smart_ac.Cstring.{codes, find_from}
use smart_ac.Http.Get.{Event, Exchange}
use smart_ac.Http.Network.{Network}
use smart_ac.Outcome.{
  EndsUnless-mono, Whenever-of_EndsUnless, Whenever, Whenever->>=, Whenever-then,
}
use smart_ac.Ping.{
  Answered, run_command, check_pong, handle_answer, exchange, thread_post_result, send_ping,
  ping_request, response_of,
}
use smart_ac.Ping.Post.{Sent, exchange-Sent}
use smart_ac.Http.Connect.Rotation.{Misprints}
use smart_ac.Queue.{ResultData, ResultQueue, Memory}
use smart_ac.Queue.Held.{IsSound, Picked, Held-Picked}
use smart_ac.Queue.Results.{cmdresult_free-ok}
use smart_ac.Queue.Taken.{freed-IsSound}
use smart_ac.Remote.{
  Shell, get_remote_shell_command, excute_remote_shell_command, posted_data, post_request,
}
use smart_ac.Remote.Executed.{excute_remote_shell_command-Kept}
use smart_ac.Remote.Sound.{Kept}
use smart_ac.Store.{Ptr, null, load, write, Cells}
use smart_ac.Store.Linked.{load-some}

abbrev pub StaysSound : List Ptr → ResultQueue × Memory → Type 0
StaysSound rs (q, m) = IsSound m q rs

module _ (shell : Shell) (rand : ℕ) (out_file : Ptr) (q : ResultQueue) (m : Memory) (rs : List Ptr)
    (is : IsSound m q rs) where
  run_command-StaysSound :
      (o : Option Bytes) → Whenever (StaysSound rs) (run_command shell rand out_file o q m)
  unfolding run_command
  run_command-StaysSound none = is
  run_command-StaysSound (some []) = is
  run_command-StaysSound (some (bar ∷ cmdptr)) =
      Whenever-then (StaysSound rs) (get_remote_shell_command cmdptr) _ (λ command.
        Whenever->>= (Kept rs) (StaysSound rs)
          (excute_remote_shell_command shell rand out_file command q m) _
          (excute_remote_shell_command-Kept shell rand out_file command q m rs is)
          (λ (done, q', m') is'. is'))

  check_pong-StaysSound :
      (res : Bytes) (o : Option Bytes)
      → Whenever (StaysSound rs) (check_pong shell rand out_file res o q m)
  unfolding check_pong
  check_pong-StaysSound res none = is
  check_pong-StaysSound res (some pong) = run_command-StaysSound (find_from (codes "|") res)

  pub handle_answer-StaysSound :
      (o : Option Bytes) → Whenever (StaysSound rs) (handle_answer shell rand out_file o q m)
  unfolding handle_answer
  handle_answer-StaysSound none = is
  handle_answer-StaysSound (some res) = check_pong-StaysSound res (find_from (codes "Pong") res)

-- There is a well-formed list of AC servers.
abbrev pub HasServers : State → Type 0
HasServers s = (cs : Cells AcServer) × IsServers s cs

module _ (net : Network) (talk : ℕ → Bytes → net.World → Option ℕ × List Event)
    (garbage : ℕ → ℕ) where
  abbrev Reaches : Answered net talk garbage → Type 0
  Reaches (answer, s, w) = HasServers s

  exchange-Reaches :
      (request : Bytes) (s : State) (w : net.World)
      → HasServers s
      → Whenever Reaches (exchange net talk garbage request s w)
  exchange-Reaches request s w (cs, is) =
      Whenever-of_EndsUnless (Misprints net s.debugconf.debuglevel) Reaches
        (exchange net talk garbage request s w)
        (EndsUnless-mono (Misprints net s.debugconf.debuglevel)
          (Sent net talk garbage request cs s w) Reaches (exchange net talk garbage request s w)
          (exchange-Sent net talk garbage request s w cs is)
          (λ r sent. (sent.turned.cells, sent.turned.servers)))

  -- The result of the thread is freed.
  abbrev Requested : Ptr → Memory → Bytes × Memory → Type 0
  Requested r m (request, m') = m' ≡ record m { results = write m.results r none }

  post_request-Requested :
      (server : AcServer) (r : Ptr) (x : ResultData) (m : Memory)
      → r ≢ null
      → m.results r ≡ some x
      → Whenever (Requested r m) (post_request server r m)
  unfolding post_request
  post_request-Requested server r x m ne at =
      rw (load-some m.results r x ne at, cmdresult_free-ok m r x ne at)
        (Whenever-then (Requested r m) (posted_data x) _ (λ body. refl))

  abbrev pub Leaves : ResultQueue → List Ptr → Option Exchange × State × Memory × net.World → Type 0
  Leaves q rs (answer, s, m, w) = IsSound m q rs × HasServers s

  pub thread_post_result-Leaves :
      {r : Ptr} {rs ts : List Ptr} (s : State) (q : ResultQueue) (m : Memory) (w : net.World)
      → Picked r rs ts
      → IsSound m q rs
      → HasServers s
      → Whenever (Leaves q ts) (thread_post_result net talk garbage r s m w)
  unfolding thread_post_result
  thread_post_result-Leaves {r} {ts} s q m w p is servers =
      let (x, loose) = (Held-Picked m is.cells p is.held).0 in
      let given : (r == null) ≡ false = ground (arith, loose.ne_null) in
      rw given (
        Whenever-then (Leaves q ts) (load s.servers s.config.ac_servers) _ (λ server.
          Whenever->>= (Requested r m) (Leaves q ts) (post_request server.value r m) _
            (post_request-Requested server.value r x m loose.ne_null loose.at)
            (λ (request, m') e.
              Whenever->>= Reaches (Leaves q ts) (exchange net talk garbage request s w) _
                (exchange-Reaches request s w servers)
                (λ (answer, s', w') servers'.
                  (subst (λ n. IsSound n q ts) (sym e) (freed-IsSound m q p is), servers')))))

  module _ (shell : Shell) (rand : ℕ) (out_file : Ptr) where
    abbrev pub Pinged : List Ptr → State × ResultQueue × Memory × net.World → Type 0
    Pinged rs (s, q, m, w) = IsSound m q rs × HasServers s

    pub send_ping-Pinged :
        (json : Option Bytes) (s : State) (q : ResultQueue) (m : Memory) (w : net.World)
        (rs : List Ptr)
        → IsSound m q rs
        → HasServers s
        → Whenever (Pinged rs) (send_ping net talk garbage shell rand out_file json s q m w)
    unfolding send_ping
    send_ping-Pinged none s q m w rs is servers = (is, servers)
    send_ping-Pinged (some json) s q m w rs is servers =
        Whenever-then (Pinged rs) (load s.servers s.config.ac_servers) _ (λ server.
          Whenever->>= Reaches (Pinged rs)
            (exchange net talk garbage (ping_request server.value json) s w) _
            (exchange-Reaches (ping_request server.value json) s w servers)
            (λ (answer, s', w') servers'.
              Whenever->>= (StaysSound rs) (Pinged rs)
                (handle_answer shell rand out_file (response_of net talk garbage answer) q m) _
                (handle_answer-StaysSound shell rand out_file q m rs is
                  (response_of net talk garbage answer))
                (λ (q', m') is'. (is', servers'))))
