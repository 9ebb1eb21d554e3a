-- ===== src/Clients/Files.antt =====
-- The lists are read from the files that the DHCP server and the traffic script write. `behind` is
-- what stands in memory behind the delimiter (see `Fields`); `client` and `traffic` are what a new
-- node holds before it is filled.
pub mod Leases
pub mod Built
pub mod Measured
pub mod Traffics
use smart_ac.Base.{
  ℕ, zero, suc, ◌+◌, ◌-◌, Bool, ◌&&◌, Option, none, some, List, [], ◌∷◌, Bytes, ◌==◌, if◌then◌else◌,
  length, replicate,
}
use smart_ac.Clients.{Client, Traffic, Lists, destory_client_list, destory_traffic_list}
use smart_ac.Clients.Fields.{Slot, unset, split_line, cut_line, seg_text, store_field}
use smart_ac.Config.Line.{fgets}
use smart_ac.Cstring.Number.{ℤ, pos, negsuc, atoi, atoll}
use smart_ac.Outcome.{Outcome, ok, fault, ◌>>=◌}
use smart_ac.Store.{Ptr, null, node, write, load}

-- The fields of one lease.
unfoldable pub fill_client : Bytes → List Slot → Outcome Client
fill_client line seg = do
  mac ← seg_text line seg 1
  c_mac ← store_field 18 mac
  ip ← seg_text line seg 2
  c_ip ← store_field 16 ip
  hostname ← seg_text line seg 3
  c_hostname ← store_field 64 hostname
  ok (record {
    c_ip = c_ip;
    c_mac = c_mac;
    c_hostname = c_hostname;
    incoming = pos 0;
    outgoing = pos 0;
    go_speed = pos 0;
    come_speed = pos 0;
  })

abbrev pub number : (Bytes → ℤ) → Option Bytes → ℤ
number convert none = pos 0
number convert (some s) = convert s

-- `if (seg[0]) sprintf (head->traffic_ip, "%s", seg[0]);`
abbrev pub replace_field : ℕ → Option Bytes → Bytes → Outcome Bytes
replace_field size none old = ok old
replace_field size (some s) old = store_field size (some s)

unfoldable pub fill_traffic : Bytes → List Slot → Traffic → Outcome Traffic
fill_traffic line seg old = do
  ip ← seg_text line seg 0
  traffic_ip ← replace_field 16 ip old.traffic_ip
  incoming ← seg_text line seg 1
  outgoing ← seg_text line seg 2
  come_speed ← seg_text line seg 3
  go_speed ← seg_text line seg 4
  ok (record {
    traffic_ip = traffic_ip;
    incoming = number atoll incoming;
    outgoing = number atoll outgoing;
    go_speed = number atoi go_speed;
    come_speed = number atoi come_speed;
  })

module _ (behind : Bytes) where
  module _ (client : Client) where
    -- `if (!head) { … }` where `malloc` succeeds: the node to fill, and the last one.
    unfoldable pub next_client : Ptr → Ptr → Lists → Outcome (Ptr × Ptr × Lists)
    next_client head pre m =
        if head == null
        then (do
          p ← load m.clients pre
          let clients = write m.clients m.brk (some (node client null))
          let clients = write clients pre (some (node p.value m.brk))
          ok (m.brk, m.brk, record m { clients = clients; brk = m.brk + 1; room = m.room - 1 }))
        else ok (head, pre, m)

    -- One line is put into the node.
    unfoldable pub put_client : Bytes → List Slot → Ptr → Lists → Outcome Lists
    put_client line seg head m = do
      c ← fill_client (cut_line behind line) seg
      _ ← load m.clients head
      ok (record m { clients = write m.clients head (some (node c null)) })

    -- `while (fgets (line, 512, fp) > 0) { … }`
    unfoldable pub client_loop :
        ℕ → Ptr → Ptr → Ptr → List Slot → Bytes → Lists → Outcome (ℤ × Lists)
    client_loop zero list head pre seg s m = fault
    client_loop (suc fuel) list head pre seg [] m = ok (pos 0, m)
    client_loop (suc fuel) list head pre seg (c ∷ s) m = do
      let (line, rest) = fgets 511 (c ∷ s)
      seg ← split_line behind line seg
      if head == null && m.room == 0
          then (do m ← destory_client_list list m; ok (negsuc 0, m))
          else (do
            (head, pre, m) ← next_client head pre m
            m ← put_client line seg head m
            client_loop fuel list null pre seg rest m)

    -- The file is none where it cannot be opened.
    unfoldable pub init_client_list : Ptr → Option Bytes → Lists → Outcome (ℤ × Lists)
    init_client_list list none m = ok (negsuc 0, m)
    init_client_list list (some s) m = if list == null then ok (negsuc 0, m) else do
      n ← load m.clients list
      client_loop (length s + 1) list list list (replicate 16 unset) s
          (record m { clients = write m.clients list (some (node n.value null)) })

  module _ (traffic : Traffic) where
    unfoldable pub next_traffic : Ptr → Ptr → Lists → Outcome (Ptr × Ptr × Lists)
    next_traffic head pre m =
        if head == null
        then (do
          p ← load m.traffics pre
          let traffics = write m.traffics m.brk (some (node traffic null))
          let traffics = write traffics pre (some (node p.value m.brk))
          ok (m.brk, m.brk, record m { traffics = traffics; brk = m.brk + 1; room = m.room - 1 }))
        else ok (head, pre, m)

    unfoldable pub put_traffic : Bytes → List Slot → Ptr → Lists → Outcome Lists
    put_traffic line seg head m = do
      old ← load m.traffics head
      t ← fill_traffic (cut_line behind line) seg old.value
      ok (record m { traffics = write m.traffics head (some (node t null)) })

    -- `while (fgets (line, 1024, fp) > 0) { … }`
    unfoldable pub traffic_loop :
        ℕ → Ptr → Ptr → Ptr → List Slot → Bytes → Lists → Outcome (ℤ × Lists)
    traffic_loop zero list head pre seg s m = fault
    traffic_loop (suc fuel) list head pre seg [] m = ok (pos 0, m)
    traffic_loop (suc fuel) list head pre seg (c ∷ s) m = do
      let (line, rest) = fgets 1023 (c ∷ s)
      seg ← split_line behind line seg
      if head == null && m.room == 0
          then (do m ← destory_traffic_list list m; ok (negsuc 0, m))
          else (do
            (head, pre, m) ← next_traffic head pre m
            m ← put_traffic line seg head m
            traffic_loop fuel list null pre seg rest m)

    unfoldable pub init_traffic_list : Ptr → Option Bytes → Lists → Outcome (ℤ × Lists)
    init_traffic_list list none m = ok (negsuc 0, m)
    init_traffic_list list (some s) m = if list == null then ok (negsuc 0, m) else do
      n ← load m.traffics list
      traffic_loop (length s + 1) list list list (replicate 16 unset) s
          (record m { traffics = write m.traffics list (some (node n.value null)) })
