-- ===== src/Clients.antt =====
-- smartac_json_util.c and smartac_json_util.h: the lists of the connected clients and of their
-- traffic, linked lists that `ping` builds anew each time. A field that is an array of characters
-- is the string in it; an array that was never written is any string.
pub mod Fields
pub mod Files
pub mod Json
pub mod Find
pub mod Merge
use smart_ac.Base.{ℕ, zero, suc, ◌+◌, ◌-◌, Bool, ◌&&◌, Bytes, ◌==◌, if◌then◌else◌, some, none, ◌||◌}
use smart_ac.Cstring.{equal}
use smart_ac.Cstring.Number.{ℤ}
use smart_ac.Outcome.{Outcome, ok, fault, ◌>>=◌}
use smart_ac.Store.{Ptr, null, Store, Node, node, write, load}

-- `struct _client_` without `next`
pub record Client : Type 0 where
  pub c_ip : Bytes
  pub c_mac : Bytes
  pub c_hostname : Bytes
  pub incoming : ℤ
  pub outgoing : ℤ
  pub go_speed : ℤ
  pub come_speed : ℤ

-- `struct _traffic_` without `next`
pub record Traffic : Type 0 where
  pub traffic_ip : Bytes
  pub incoming : ℤ
  pub outgoing : ℤ
  pub go_speed : ℤ
  pub come_speed : ℤ

-- The heap: the nodes of both lists, the address that the next allocation returns, and how many
-- more allocations succeed.
pub record Lists : Type 0 where
  pub clients : Store (Node Client)
  pub traffics : Store (Node Traffic)
  pub brk : ℕ
  pub room : ℕ

module _ {V : Type 0} where
  -- `while (ptr) { if (…) return ptr; ptr = ptr->next; } return NULL;`
  unfoldable pub find_node : (V → Bool) → ℕ → Store (Node V) → Ptr → Outcome Ptr
  find_node test zero h p = fault
  find_node test (suc fuel) h p =
      let rest = (do
        n ← load h p
        let later = find_node test fuel h n.next
        if test n.value then ok p else later) in
      if p == null then ok null else rest

  -- `while (p1) { p2 = p1->next; free (p1); p1 = p2; }`
  unfoldable pub free_nodes : ℕ → Store (Node V) → Ptr → Outcome (Store (Node V))
  free_nodes zero h p = fault
  free_nodes (suc fuel) h p =
      let rest = (do n ← load h p; free_nodes fuel (write h p none) n.next) in
      if p == null then ok h else rest

unfoldable pub destory_client_list : Ptr → Lists → Outcome Lists
destory_client_list list m = do
  clients ← free_nodes (m.brk + 1) m.clients list
  ok (record m { clients = clients })

unfoldable pub destory_traffic_list : Ptr → Lists → Outcome Lists
destory_traffic_list list m = do
  traffics ← free_nodes (m.brk + 1) m.traffics list
  ok (record m { traffics = traffics })

abbrev pub find_client_by_ip : Ptr → Bytes → Lists → Outcome Ptr
find_client_by_ip list ip m = find_node (λ c. equal c.c_ip ip) (m.brk + 1) m.clients list

abbrev pub find_client_by_mac : Ptr → Bytes → Lists → Outcome Ptr
find_client_by_mac list mac m = find_node (λ c. equal c.c_mac mac) (m.brk + 1) m.clients list

abbrev pub find_client_by_hostname : Ptr → Bytes → Lists → Outcome Ptr
find_client_by_hostname list hostname m =
    find_node (λ c. equal c.c_hostname hostname) (m.brk + 1) m.clients list

abbrev pub find_client_by_mac_ip : Ptr → Bytes → Bytes → Lists → Outcome Ptr
find_client_by_mac_ip list mac ip m =
    find_node (λ c. equal c.c_mac mac && equal c.c_ip ip) (m.brk + 1) m.clients list

abbrev pub find_traffic_by_ip : Ptr → Bytes → Lists → Outcome Ptr
find_traffic_by_ip list ip m = find_node (λ t. equal t.traffic_ip ip) (m.brk + 1) m.traffics list

-- The four assignments of `get_traffic_to_client`.
abbrev pub with_traffic : Traffic → Client → Client
with_traffic t c = record c {
  incoming = t.incoming;
  outgoing = t.outgoing;
  go_speed = t.go_speed;
  come_speed = t.come_speed;
}

unfoldable pub copy_traffic : Ptr → Node Client → Ptr → Lists → Outcome Lists
copy_traffic c_p c t_p m = if t_p == null then ok m else do
  t ← load m.traffics t_p
  ok (record m {
    clients = write m.clients c_p (some (node (with_traffic t.value c.value) c.next));
  })

-- `while (c_p) { … }`
unfoldable pub merge_loop : ℕ → Ptr → Ptr → Lists → Outcome Lists
merge_loop zero t_list c_p m = fault
merge_loop (suc fuel) t_list c_p m =
    let rest = (do
      c ← load m.clients c_p
      t_p ← find_traffic_by_ip t_list c.value.c_ip m
      m ← copy_traffic c_p c t_p m
      merge_loop fuel t_list c.next m) in
    if c_p == null then ok m else rest

unfoldable pub get_traffic_to_client : Ptr → Ptr → Lists → Outcome Lists
get_traffic_to_client c_list t_list m =
    if c_list == null || t_list == null then ok m else merge_loop (m.brk + 1) t_list c_list m
