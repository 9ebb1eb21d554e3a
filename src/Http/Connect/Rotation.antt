-- ===== src/Http/Connect/Rotation.antt =====
-- `connect_ac_server` against the list of servers.
use smart_ac.Base.{
  ℕ, zero, suc, ◌+◌, ◌<◌, ◌≤◌, ◌≡◌, refl, sym, ap, ◌∙◌, Bool, true, false, Option, none, some, List,
  [], ◌∷◌, map, Bytes, ◌==◌, ltb, lt→ltb, length, arith,
}
use mathlib.Core.Path.{subst}
use smart_ac.Config.{AcServer, State}
use smart_ac.Config.Servers.{mark_ac_server_bad, IsServers}
use smart_ac.Config.Servers.Rotate.{rotate, mark_ac_server_bad-rotate}
use smart_ac.Http.Connect.{
  to_uint16, with_last_ip, update_last_ip, Connected, put, next_server, unresolved, try_connect,
  open_socket, resolve, look_up, or_next, any_resolves, log_err, connect_level, connect_ac_server,
}
use smart_ac.Http.Network.{Network}
use smart_ac.Cstring.Number.{ℤ}
use smart_ac.Debug.{reaches}
use smart_ac.Outcome.{
  Outcome, ok, exits, fault, EndsUnless, EndsUnless-if, EndsUnless->>=, EndsUnless-mono,
  EndsUnless-of_Returns, EndsUnless-imp,
}
use smart_ac.Store.{Ptr, null, node, Cells, first}
use smart_ac.Http.Connect.Turns.{
  identity, rotate_by, map-rotate, put-IsServers, length-rotate, top, load-top,
}

-- A network in which `socket` fails at some time.
abbrev pub NoSocket : Network → Type 0
NoSocket net = (w : net.World) × (w' : net.World) × (net.socket w ≡ (none, w'))

-- It does so, and its ill-formed message is logged at the level `debuglevel`.
abbrev pub Misprints : Network → ℤ → Type 0
Misprints net debuglevel = (reaches debuglevel log_err ≡ true) × NoSocket net

module _ (net : Network) where
  open net use {World, allocates, gethostbyname, inet_ntoa, socket, connect, close}

  -- The first server of `cs` took the connection that `fd` stands for, and did so last.
  abbrev pub IsConnected : ℕ → World → Cells AcServer → Type 0
  IsConnected fd w [] = ⊥
  IsConnected fd w ((p, v) ∷ cs) =
      (addr : ℕ) × (before : World) × (connect fd addr (to_uint16 v.port) before ≡ (true, w))

  abbrev pub ConnectedIf : Option ℕ → World → Cells AcServer → Type 0
  ConnectedIf none w cs = Unit
  ConnectedIf (some fd) w cs = IsConnected fd w cs

  -- The list `cs` was turned, by at most `bound` places; with a socket, its new first server is the
  -- one at the other end.
  pub record Turned (bound : ℕ) (cs : Cells AcServer) (r : Option ℕ × State × World) : Type 0 where
    pub turns : ℕ
    pub cells : Cells AcServer
    pub servers : IsServers r.1 cells
    pub turned : map identity cells ≡ rotate_by turns (map identity cs)
    pub turns_le : turns ≤ bound
    pub connected : ConnectedIf r.0 r.2 cells

  still :
      (b : ℕ) (cs : Cells AcServer) (s : State) (w : World)
      → IsServers s cs
      → Turned b cs (none, s, w)
  still b cs s w is = record {
    turns = 0;
    cells = cs;
    servers = is;
    turned = refl;
    turns_le = omega arith;
    connected = tt;
  }

  one_more :
      (b : ℕ) (cs : Cells AcServer) (r : Option ℕ × State × World)
      → Turned b (rotate cs) r
      → Turned (suc b) cs r
  one_more b cs r t = record {
    turns = suc t.turns;
    cells = t.cells;
    servers = t.servers;
    turned = t.turned ∙ ap (rotate_by t.turns) (map-rotate identity cs);
    turns_le = omega (arith, t.turns_le);
    connected = t.connected;
  }

  -- The last known address of the first server is no part of what is turned.
  Turned-last_ip :
      (b : ℕ) (p : Ptr) (v : AcServer) (ip : Option Bytes) (cs : Cells AcServer)
      (r : Option ℕ × State × World)
      → Turned b ((p, record v { last_ip = ip }) ∷ cs) r
      → Turned b ((p, v) ∷ cs) r
  Turned-last_ip b p v ip cs r t = record {
    turns = t.turns;
    cells = t.cells;
    servers = t.servers;
    turned = t.turned;
    turns_le = t.turns_le;
    connected = t.connected;
  }

  look_up-Ends :
      (S : Type 0) (name : Bytes) (w : World) → EndsUnless S (λ _. Unit {0}) (look_up net name w)
  unfolding look_up
  look_up-Ends S name w =
      EndsUnless-if S (λ _. Unit {0}) (allocates w) (ok (gethostbyname name w)) (exits 1) (λ _. tt)
        (λ _ e. absurd (ground (arith, e)))

  or_next-Ends :
      (S : Type 0) (rest : World → Outcome (Bool × World))
      → ((w : World) → EndsUnless S (λ _. Unit {0}) (rest w))
      → (answer : Option ℕ × World) → EndsUnless S (λ _. Unit {0}) (or_next net rest answer)
  or_next-Ends S rest ends (some addr, w) = tt
  or_next-Ends S rest ends (none, w) = ends w

  any_resolves-Ends :
      (S : Type 0) (ps : List Bytes) (w : World)
      → EndsUnless S (λ _. Unit {0}) (any_resolves net ps w)
  unfolding any_resolves
  any_resolves-Ends S [] w = tt
  any_resolves-Ends S (p ∷ ps) w =
      EndsUnless->>= S (λ _. Unit {0}) (λ _. Unit {0}) (look_up net p w) _ (look_up-Ends S p w)
        (λ answer e _. or_next-Ends S (any_resolves net ps) (any_resolves-Ends S ps) answer)

  -- A `retry` that does right by every list of `n` servers.
  abbrev Good : (State → World → Connected net) → ℕ → ℕ → Type 0
  Good retry b n =
      (s : State) (w : World) (cs : Cells AcServer)
      → IsServers s cs
      → length cs ≡ n
      → EndsUnless (Misprints net s.debugconf.debuglevel) (Turned b cs) (retry s w)

  module _ (retry : State → World → Connected net) (b n : ℕ) (good : Good retry b n) (p : Ptr)
      (v : AcServer) (cs : Cells AcServer) (len : suc (length cs) ≡ n) where
    next_server-Turned :
        (s : State) (w : World)
        → IsServers s ((p, v) ∷ cs)
        → EndsUnless
            (Misprints net s.debugconf.debuglevel)
            (Turned (suc b) ((p, v) ∷ cs))
            (next_server net retry p s w)
    next_server-Turned s w is =
        EndsUnless->>= (Misprints net s.debugconf.debuglevel) _ _ (mark_ac_server_bad p s) _
          (EndsUnless-of_Returns (Misprints net s.debugconf.debuglevel) _ (mark_ac_server_bad p s)
            (mark_ac_server_bad-rotate s p v cs is))
          λ s' e (is', same).
            EndsUnless-imp (Misprints net s'.debugconf.debuglevel)
              (Misprints net s.debugconf.debuglevel) _ _ (retry s' w)
              (good s' w (rotate ((p, v) ∷ cs)) is' (length-rotate ((p, v) ∷ cs) ∙ len))
              (λ (logged, fails).
                (ap (λ t. reaches t.debugconf.debuglevel log_err) (sym same) ∙ logged, fails))
              (one_more b ((p, v) ∷ cs))

    try_connect-Turned :
        (s : State) (fd addr : ℕ) (w : World) (answer : Bool × World)
        → connect fd addr (to_uint16 v.port) w ≡ answer
        → IsServers s ((p, v) ∷ cs)
        → EndsUnless
            (Misprints net s.debugconf.debuglevel)
            (Turned (suc b) ((p, v) ∷ cs))
            (try_connect net retry p s fd answer)
    unfolding try_connect
    try_connect-Turned s fd addr w (true, w') e is = record {
      turns = 0;
      cells = (p, v) ∷ cs;
      servers = is;
      turned = refl;
      turns_le = omega arith;
      connected = (addr, w, e);
    }
    try_connect-Turned s fd addr w (false, w') e is = next_server-Turned s (close fd w') is

    open_socket-Turned :
        (s : State) (addr : ℕ) (w : World) (answer : Option ℕ × World)
        → socket w ≡ answer
        → IsServers s ((p, v) ∷ cs)
        → EndsUnless
            (Misprints net s.debugconf.debuglevel)
            (Turned (suc b) ((p, v) ∷ cs))
            (open_socket net retry p v.port s addr answer)
    unfolding open_socket
    open_socket-Turned s addr w (none, w') e is =
        EndsUnless-if (Misprints net s.debugconf.debuglevel) (Turned (suc b) ((p, v) ∷ cs))
          (reaches s.debugconf.debuglevel log_err) fault (ok (none, s, w'))
          (λ logged. (logged, (w, w', e))) (λ _. still _ _ s w' is)
    open_socket-Turned s addr before (some fd, w) e is = try_connect-Turned s fd addr w _ refl is

  module _ (retry : State → World → Connected net) (b n : ℕ) (good : Good retry b n) where
    unresolved-Turned :
        (s : State) (p : Ptr) (v : AcServer) (cs : Cells AcServer) (answer : Bool × World)
        → suc (length cs) ≡ n
        → IsServers s ((p, v) ∷ cs)
        → EndsUnless
            (Misprints net s.debugconf.debuglevel)
            (Turned (suc b) ((p, v) ∷ cs))
            (unresolved net retry p (node v (first null cs)) s answer)
    unfolding unresolved
    unresolved-Turned s p v cs (true, w) len is =
        EndsUnless-mono (Misprints net s.debugconf.debuglevel) _ _
          (next_server net retry p (put net p (with_last_ip none (node v (first null cs))) s) w)
          (next_server-Turned retry b n good p _ cs len _ w (put-IsServers s p v none cs is))
          (Turned-last_ip (suc b) p v none cs)
    unresolved-Turned s p v cs (false, w) len is = still _ _ s w is

    resolve-Turned :
        (s : State) (p : Ptr) (v : AcServer) (cs : Cells AcServer) (answer : Option ℕ × World)
        → suc (length cs) ≡ n
        → IsServers s ((p, v) ∷ cs)
        → EndsUnless
            (Misprints net s.debugconf.debuglevel)
            (Turned (suc b) ((p, v) ∷ cs))
            (resolve net retry p (node v (first null cs)) s answer)
    unfolding resolve
    resolve-Turned s p v cs (none, w) len is =
        EndsUnless->>= (Misprints net s.debugconf.debuglevel) (λ _. Unit {0})
          (Turned (suc b) ((p, v) ∷ cs)) (any_resolves net s.config.popular_servers w) _
          (any_resolves-Ends (Misprints net s.debugconf.debuglevel) s.config.popular_servers w)
          (λ answer e _. unresolved-Turned s p v cs answer len is)
    resolve-Turned s p v cs (some addr, w) len is =
        let ip = some (update_last_ip v.last_ip (inet_ntoa addr)) in
        let s' = put net p (with_last_ip ip (node v (first null cs))) s in
        EndsUnless-if (Misprints net s.debugconf.debuglevel) (Turned (suc b) ((p, v) ∷ cs))
          (allocates w) (open_socket net retry p v.port s' addr (socket w)) (exits 1)
          (λ _.
            EndsUnless-mono (Misprints net s.debugconf.debuglevel) _ _
              (open_socket net retry p v.port s' addr (socket w))
              (open_socket-Turned retry b n good p _ cs len s' addr w (socket w) refl
                (put-IsServers s p v ip cs is))
              (Turned-last_ip (suc b) p v ip cs))
          (λ _ e. absurd (ground (arith, e)))

  -- From the level on that a call has reached, it makes at most one round for each server left.
  connect_level-Turned :
      (fuel level bound : ℕ) (s : State) (w : World) (cs : Cells AcServer)
      → IsServers s cs
      → length cs ≤ bound + level
      → bound < fuel
      → EndsUnless
          (Misprints net s.debugconf.debuglevel)
          (Turned bound cs)
          (connect_level net fuel level s w)
  unfolding connect_level
  connect_level-Turned zero level bound s w cs is left h = absurd (omega arith)
  connect_level-Turned (suc fuel) level bound s w [] is left h =
      let none_left : (s.config.ac_servers == null) ≡ true = ground (arith, is.head) in
      rw none_left (still bound [] s w is)
  connect_level-Turned (suc fuel) level zero s w ((p, v) ∷ cs) is left h =
      let (there, counted) = top s p v cs is in
      let over : ltb (suc (length cs)) (level + 1) ≡ true = lt→ltb _ _ (omega arith) in
      rw (there, counted, over) (still 0 _ s w is)
  connect_level-Turned (suc fuel) level (suc b) s w ((p, v) ∷ cs) is left h =
      let (there, counted) = top s p v cs is in
      let retry = connect_level net fuel (level + 1) in
      let good =
        λ (t : State) (u : World) (ds : Cells AcServer) (i : IsServers t ds)
            (e : length ds ≡ suc (length cs)).
          connect_level-Turned fuel (level + 1) b t u ds i (omega arith) (omega arith) in
      rw (there, counted)
        (EndsUnless-if (Misprints net s.debugconf.debuglevel) _ (ltb (suc (length cs)) (level + 1))
          (ok (none, s, w)) _ (λ _. still (suc b) _ s w is)
          λ _. rw (load-top s p v cs is) (
            EndsUnless->>= (Misprints net s.debugconf.debuglevel) (λ _. Unit {0})
              (Turned (suc b) ((p, v) ∷ cs)) (look_up net v.hostname w) _
              (look_up-Ends (Misprints net s.debugconf.debuglevel) v.hostname w)
              (λ answer e _.
                subst
                  (EndsUnless (Misprints net s.debugconf.debuglevel) (Turned (suc b) ((p, v) ∷ cs)))
                  (ap (λ q. resolve net retry q (node v (first null cs)) s answer) (sym is.head))
                  (resolve-Turned retry b (suc (length cs)) good s p v cs answer refl is))))

  pub connect_ac_server-Turned :
      (s : State) (w : World) (cs : Cells AcServer)
      → IsServers s cs
      → EndsUnless
          (Misprints net s.debugconf.debuglevel)
          (Turned (length cs) cs)
          (connect_ac_server net s w)
  unfolding connect_ac_server
  connect_ac_server-Turned s w cs is =
      connect_level-Turned (s.brk + 1) 0 (length cs) s w cs is (omega arith)
        (omega (arith, is.counted))
