-- ===== src/Http/Connect.antt =====
-- `_connect_ac_server` and `connect_ac_server`. The call runs under `config_mutex`.
pub mod Turns
pub mod Rotation
use smart_ac.Base.{
  ℕ, zero, suc, ◌+◌, ◌-◌, ◌%◌, ◌^◌, Bool, true, false, Option, none, some, List, [], ◌∷◌, Bytes,
  ◌==◌, ltb, if◌then◌else◌,
}
use smart_ac.Config.{AcServer, State}
use smart_ac.Config.Servers.{mark_ac_server_bad}
use smart_ac.Debug.{reaches}
use smart_ac.Cstring.{equal}
use smart_ac.Cstring.Number.{ℤ, pos, negsuc}
use smart_ac.Http.Network.{Network}
use smart_ac.Outcome.{Outcome, ok, exits, fault, ◌>>=◌}
use smart_ac.Store.{Ptr, null, Node, node, write, load, count_nodes}

-- `LOG_ERR`
abbrev pub log_err : ℕ
log_err = 3

-- An `int` as the 16 bits that `htons` takes.
unfoldable pub to_uint16 : ℤ → ℕ
to_uint16 (pos n) = n % 2 ^ 16
to_uint16 (negsuc n) = (2 ^ 16 - 1) - n % 2 ^ 16

abbrev pub with_last_ip : Option Bytes → Node AcServer → Node AcServer
with_last_ip ip n = record n { value = record n.value { last_ip = ip } }

-- The address that a server was last known by, after it resolved to `ip`.
unfoldable pub update_last_ip : Option Bytes → Bytes → Bytes
update_last_ip none ip = ip
update_last_ip (some old) ip = if equal old ip then old else ip

module _ (net : Network) where
  open net use {World, allocates, gethostbyname, inet_ntoa, socket, connect, close}

  -- `wd_gethostbyname`, which ends the process where there is no memory for the address.
  unfoldable pub look_up : Bytes → World → Outcome (Option ℕ × World)
  look_up name w = if allocates w then ok (gethostbyname name w) else exits 1

  -- What a lookup of a popular server found, and `rest`, the loop over the others.
  abbrev pub or_next : (World → Outcome (Bool × World)) → Option ℕ × World → Outcome (Bool × World)
  or_next rest (some addr, w) = ok (true, w)
  or_next rest (none, w) = rest w

  -- The loop over the popular servers: whether one of them resolved.
  unfoldable pub any_resolves : List Bytes → World → Outcome (Bool × World)
  any_resolves [] w = ok (false, w)
  any_resolves (p ∷ ps) w = do answer ← look_up p w; or_next (any_resolves ps) answer

  -- The socket (`none` for -1), and what the call leaves of the state and of the world.
  abbrev pub Connected : Type 0
  Connected = Outcome (Option ℕ × State × World)

  -- Writing back a server that was changed.
  abbrev put : Ptr → Node AcServer → State → State
  put p n s = record s { servers = write s.servers p (some n) }

  -- The server goes to the end of the list and the next one is tried.
  abbrev next_server : (State → World → Connected) → Ptr → State → World → Connected
  next_server retry p s w = do s' ← mark_ac_server_bad p s; retry s' w

  -- The server's name does not resolve.
  unfoldable pub unresolved :
      (State → World → Connected) → Ptr → Node AcServer → State → Bool × World → Connected
  unresolved retry p n s (true, w) = next_server retry p (put p (with_last_ip none n) s) w
  unresolved retry p n s (false, w) = ok (none, s, w)

  unfoldable pub try_connect :
      (State → World → Connected) → Ptr → State → ℕ → Bool × World → Connected
  try_connect retry p s sockfd (true, w) = ok (some sockfd, s, w)
  try_connect retry p s sockfd (false, w) = next_server retry p s (close sockfd w)

  -- The message for a socket that cannot be created has two conversions and one argument: where it is
  -- logged at all, its printing is undefined.
  unfoldable pub open_socket :
      (State → World → Connected) → Ptr → ℤ → State → ℕ → Option ℕ × World → Connected
  open_socket retry p port s addr (none, w) =
      if reaches s.debugconf.debuglevel log_err then fault else ok (none, s, w)
  open_socket retry p port s addr (some sockfd, w) =
      try_connect retry p s sockfd (connect sockfd addr (to_uint16 port) w)

  -- The first server is looked up by its name.
  unfoldable pub resolve :
      (State → World → Connected) → Ptr → Node AcServer → State → Option ℕ × World → Connected
  resolve retry p n s (none, w) = do
    answer ← any_resolves s.config.popular_servers w
    unresolved retry p n s answer
  resolve retry p n s (some addr, w) =
      let ip = update_last_ip n.value.last_ip (inet_ntoa addr) in
      let connecting =
        open_socket retry p n.value.port (put p (with_last_ip (some ip) n) s) addr (socket w) in
      if allocates w then connecting else exits 1

  unfoldable pub connect_level : ℕ → ℕ → State → World → Connected
  connect_level zero level s w = fault
  connect_level (suc fuel) level s w =
      let attempt = (do
        n ← load s.servers s.config.ac_servers
        answer ← look_up n.value.hostname w
        resolve (connect_level fuel (level + 1)) s.config.ac_servers n s answer) in
      let counted = (do
        num_servers ← count_nodes (s.brk + 1) s.servers s.config.ac_servers 0
        if ltb num_servers (level + 1) then ok (none, s, w) else attempt) in
      if s.config.ac_servers == null then ok (none, s, w) else counted

  -- The list has fewer servers than `brk`, and a round is made for each.
  unfoldable pub connect_ac_server : State → World → Connected
  connect_ac_server s w = connect_level (s.brk + 1) 0 s w
