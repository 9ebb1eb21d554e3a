-- ===== src/Ping/Leaked.antt =====
-- The collection of the data of a ping without a file of leases.
use smart_ac.Base.{
  ◌+◌, ◌-◌, ◌≤◌, ◌≡◌, ◌≢◌, refl, Bool, false, Option, none, some, Bytes, ◌==◌, arith,
}
use smart_ac.Clients.{Lists}
use smart_ac.Clients.Files.{init_client_list}
use smart_ac.Clients.Json.{Host}
use smart_ac.Clients.Json.Report.{update_ac_information}
use smart_ac.Config.{Config}
use smart_ac.Cstring.{codes}
use smart_ac.Outcome.{ok, Returns}
use smart_ac.Ping.{Unfilled, dhcp_leases_file, read_clients, collect}
use smart_ac.Store.{Ptr, Store, write}
use smart_ac.Store.Linked.{write_self}

some_at : {A : Type 0} (h : Store A) (p : Ptr) (a : A) → write h p (some a) p ≢ none
some_at h p a e = absurd (ground (arith, e, write_self h p (some a)))

-- What was allocated for the two lists is still there, and there is no text.
abbrev pub Leaked : Lists → Option Bytes × Lists → Type 0
Leaked m (json, m') = (json ≡ none) × (m'.clients m.brk ≢ none) × (m'.traffics (m.brk + 1) ≢ none)

-- Where the file of the leases cannot be opened, there is memory for both nodes and the script answers,
-- the collection of the data returns without a text, and neither of the two nodes was freed.
pub collect-Leaked :
    (behind : Bytes) (unfilled : Unfilled) (host : Host) (config : Config) (m : Lists) (r : Bool)
    → update_ac_information host (codes "traffic_update") ≡ ok r
    → 2 ≤ m.room
    → host.open_file dhcp_leases_file ≡ none
    → Returns (Leaked m) (collect behind unfilled host config m)
unfolding collect read_clients init_client_list
collect-Leaked behind unfilled host config m r answered room missing =
    let some_room : (m.room == 0) ≡ false = ground arith in
    let more_room : (m.room - 1 == 0) ≡ false = ground arith in
    rw (answered, some_room, more_room, missing)
      (refl, some_at m.clients m.brk _, some_at m.traffics (m.brk + 1) _)
