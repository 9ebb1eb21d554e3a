-- ===== src/Config/Servers.antt =====
-- The list of AC servers: the append of `parse_ac_server`, `get_ac_server` and `mark_ac_server_bad`.
pub mod Rotate
use smart_ac.Base.{
  ℕ, suc, ◌+◌, ◌<◌, ◌≡◌, List, [], ◌∷◌, ◌++◌, Bytes, some, ◌==◌, if◌then◌else◌, length,
}
use smart_ac.Config.{AcServer, State}
use smart_ac.Outcome.{Outcome, ok, ◌>>=◌}
use smart_ac.Store.{Ptr, null, node, write, load, last_node, Cells, first, Linked}
use smart_ac.Store.Linked.{Below}

-- The end of `parse_ac_server`: the new struct, filled in, behind the last one.
unfoldable pub append_server : AcServer → State → Outcome State
append_server new s =
    let servers = write s.servers s.brk (some (node new null)) in
    let grown = record s { servers = servers; brk = s.brk + 1 } in
    if s.config.ac_servers == null
    then ok (record grown { config = record s.config { ac_servers = s.brk } })
    else (do
      tmp ← last_node (s.brk + 1) servers s.config.ac_servers
      n ← load servers tmp
      ok (record grown { servers = write servers tmp (some (node n.value s.brk)) }))

abbrev pub get_ac_server : State → Ptr
get_ac_server s = s.config.ac_servers

-- The server's turn is over, and it goes to the end of the list.
move_to_end : Ptr → State → Outcome State
move_to_end bad s = do
  tmp ← last_node (s.brk + 1) s.servers s.config.ac_servers
  n ← load s.servers tmp
  let servers = write s.servers tmp (some (node n.value bad))
  b ← load servers bad
  let config = record s.config { ac_servers = b.next }
  ok (record s { config = config; servers = write servers bad (some (node b.value null)) })

unfoldable pub mark_ac_server_bad : Ptr → State → Outcome State
unfolding move_to_end
mark_ac_server_bad bad s =
    if s.config.ac_servers == bad
    then (do b ← load s.servers bad; if b.next == null then ok s else move_to_end bad s)
    else ok s

-- The servers of the list, in order, with the addresses of their structs.
pub record IsServers (s : State) (cs : Cells AcServer) : Type 0 where
  pub head : s.config.ac_servers ≡ first null cs
  pub chain : Linked s.servers null cs
  pub below : Below s.brk cs
  pub counted : length cs < s.brk
