-- ===== src/Ping/Post.antt =====
-- How `thread_post_result` ends.
use smart_ac.Base.{ℕ, ◌≤◌, ◌≡◌, refl, true, Option, none, some, List, Bytes, length, take, ◌-◌}
use smart_ac.Config.{AcServer, State}
use smart_ac.Config.Servers.{IsServers}
use smart_ac.Cstring.{has_nul, until_nul}
use smart_ac.Http.Connect.{connect_ac_server}
use smart_ac.Http.Connect.Rotation.{Misprints, Turned, connect_ac_server-Turned}
use smart_ac.Http.Get.{Event, Exchange}
use smart_ac.Http.Get.Response.{expected, http_get-expected}
use smart_ac.Http.Network.{Network}
use smart_ac.Outcome.{ok, Returns, EndsUnless, EndsUnless->>=, EndsUnless-of_Returns}
use smart_ac.Ping.{Answered, converse, exchange}
use smart_ac.Queue.{ResultData, Memory}
use smart_ac.Queue.Shape.{IsResult}
use smart_ac.Remote.{post_text}
use smart_ac.Store.{Ptr, write, Cells}

-- A result that fits into the array of the thread and holds a string.
pub record IsPostable (x : ResultData) : Type 0 where
  pub is_result : IsResult x
  pub fits : x.size ≤ 20480
  pub terminated : has_nul x.result ≡ true

module _ (net : Network) (talk : ℕ → Bytes → net.World → Option ℕ × List Event)
    (garbage : ℕ → ℕ) where
  -- What is said on the connection, where there is one: the request is sent, and the exchange is what
  -- the answers to it come to.
  abbrev pub spoken : Bytes → Option ℕ → net.World → Option Exchange
  spoken request none w = none
  spoken request (some sockfd) w =
      let (sent, events) = talk sockfd request w in
      some (expected (some sockfd) request sent events)

  -- The program tried to connect, the list of servers is the old one, turned, and the request was sent
  -- on the connection that came of it.
  pub record Sent (request : Bytes) (cs : Cells AcServer) (s : State) (w : net.World)
      (r : Answered net talk garbage) : Type 0 where
    pub sockfd : Option ℕ
    pub tried : connect_ac_server net s w ≡ ok (sockfd, r.1, r.2)
    pub turned : Turned net (length cs) cs (sockfd, r.1, r.2)
    pub answer : r.0 ≡ spoken request sockfd r.2

  converse-Sent :
      (request : Bytes) (cs : Cells AcServer) (s : State) (w : net.World)
      (connected : Option ℕ × State × net.World)
      → connect_ac_server net s w ≡ ok connected
      → Turned net (length cs) cs connected
      → Returns (Sent request cs s w) (converse net talk garbage request connected)
  unfolding converse
  converse-Sent request cs s w (none, s', w') e t = record {
    sockfd = none;
    tried = e;
    turned = t;
    answer = refl;
  }
  converse-Sent request cs s w (some sockfd, s', w') e t =
      let (sent, events) = talk sockfd request w' in
      rw (http_get-expected garbage (some sockfd) request sent events)
        (record { sockfd = some sockfd; tried = e; turned = t; answer = refl })

  pub exchange-Sent :
      (request : Bytes) (s : State) (w : net.World) (cs : Cells AcServer)
      → IsServers s cs
      → EndsUnless
          (Misprints net s.debugconf.debuglevel)
          (Sent request cs s w)
          (exchange net talk garbage request s w)
  unfolding exchange
  exchange-Sent request s w cs is =
      EndsUnless->>= (Misprints net s.debugconf.debuglevel) (Turned net (length cs) cs)
        (Sent request cs s w) (connect_ac_server net s w) _ (connect_ac_server-Turned net s w cs is)
        (λ connected e t.
          EndsUnless-of_Returns (Misprints net s.debugconf.debuglevel) (Sent request cs s w)
            (converse net talk garbage request connected)
            (converse-Sent request cs s w connected e t))

  -- The request that posts the result `x` to the server `v`.
  abbrev pub result_request : AcServer → ResultData → Bytes
  result_request v x = take (40960 - 2) (post_text v x.c_size (until_nul x.result))

  -- What the thread leaves: the request was sent, and the result is freed.
  pub record Posted (args : Ptr) (x : ResultData) (v : AcServer) (cs : Cells AcServer) (s : State)
      (m : Memory) (w : net.World) (r : Option Exchange × State × Memory × net.World) : Type 0 where
    pub sent : Sent (result_request v x) cs s w (r.0, r.1, r.3)
    pub freed : r.2 ≡ record m { results = write m.results args none }
