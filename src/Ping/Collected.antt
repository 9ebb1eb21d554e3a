-- ===== src/Ping/Collected.antt =====
-- The collection of the data of a ping, against the heap that its two lists are built in.
use mathlib.Core.Path.{subst}
use smart_ac.Base.{
  ◌+◌, ◌-◌, ◌≤◌, ◌<◌, ◌≡◌, ◌≢◌, sym, ap, ◌∙◌, false, Option, none, some, ◌∷◌, Bytes, ◌==◌, arith,
  if◌then◌else◌,
}
use smart_ac.Clients.{
  Client, Traffic, Lists, get_traffic_to_client, destory_client_list, destory_traffic_list,
}
use smart_ac.Clients.Files.{init_client_list, init_traffic_list}
use smart_ac.Clients.Files.Built.{Filled, init_client_list-Filled}
use smart_ac.Clients.Files.Measured.{Gauged, init_traffic_list-Gauged}
use smart_ac.Clients.Json.{Host, max_string_len}
use smart_ac.Clients.Json.Report.{holds, build_ping_json_data, update_ac_information}
use smart_ac.Clients.Merge.{merged, length-merged, Merged, get_traffic_to_client-Merged}
use smart_ac.Config.{Config}
use smart_ac.Cstring.{codes}
use smart_ac.Cstring.Number.{ℤ, pos, negsuc}
use smart_ac.Outcome.{Whenever, Whenever-if, Whenever->>=, Whenever-then, Whenever-of_Returns}
use smart_ac.Ping.{
  Unfilled, client_node, traffic_node, traffic_file, dhcp_leases_file, shown, report, read_traffics,
  read_clients, collect,
}
use smart_ac.Ping.Freed.{
  ClientsFreed, TrafficsFreed, destory_client_list-Freed, destory_traffic_list-Freed, Freed-merged,
}
use smart_ac.Store.{Ptr, null, Store, Node, Cells, has, Linked}
use smart_ac.Store.Fresh.{Fresh, Fresh-mono, Fresh-freed}
use smart_ac.Store.Linked.{write_ne}

-- Both heaps hold what they held at the start.
abbrev pub Restored : Lists → Lists → Type 0
Restored m0 m = (a : Ptr) → (m.clients a ≡ m0.clients a) × (m.traffics a ≡ m0.traffics a)

-- It is so whenever there is a text.
abbrev pub Collected : Lists → Option Bytes × Lists → Type 0
Collected m0 (json, m) = (text : Bytes) → json ≡ some text → Restored m0 m

module _ (behind : Bytes) (unfilled : Unfilled) (host : Host) (config : Config) (m0 : Lists)
    (some_brk : m0.brk ≢ null) (free_clients : (a : Ptr) → m0.brk ≤ a → m0.clients a ≡ none)
    (free_traffics : (a : Ptr) → m0.brk ≤ a → m0.traffics a ≡ none) where
  module _ (a b : Ptr) (v : Client) (w : Traffic) (cs : Cells Client) (ts : Cells Traffic)
      (m : Lists) (built : Fresh m0.brk m0.clients m.clients m.brk ((a, v) ∷ cs))
      (measured : Fresh m0.brk m0.traffics m.traffics m.brk ((b, w) ∷ ts)) where
    merge-Merged : Whenever (Merged ((b, w) ∷ ts) ((a, v) ∷ cs) m) (get_traffic_to_client a b m)
    merge-Merged =
        Whenever-of_Returns (Merged ((b, w) ∷ ts) ((a, v) ∷ cs) m) (get_traffic_to_client a b m) (
          get_traffic_to_client-Merged ((a, v) ∷ cs) ((b, w) ∷ ts) m
            (omega (arith, some_brk, built.counted)) (omega (arith, some_brk, measured.counted))
            built.linked measured.linked)

    -- Freeing both lists after the merge.
    both_freed :
        (m1 m2 m3 : Lists)
        → Merged ((b, w) ∷ ts) ((a, v) ∷ cs) m m1
        → ClientsFreed (merged ((b, w) ∷ ts) ((a, v) ∷ cs)) m1 m2
        → TrafficsFreed ((b, w) ∷ ts) m2 m3
        → Restored m0 m3
    both_freed m1 m2 m3 is (same2, freed2) (same3, freed3) x =
        let whole : m2.traffics ≡ m.traffics =
          ap (λ (y : Lists). y.traffics) same2 ∙ ap (λ (y : Lists). y.traffics) is.1.0 in
        (
          ap (λ (h : Store (Node Client)). h x) same3
              ∙ Fresh-freed m0.brk m0.clients m.clients m2.clients m.brk ((a, v) ∷ cs) built
                  free_clients (Freed-merged ((b, w) ∷ ts) ((a, v) ∷ cs) m m1 m2 is freed2) x,
          Fresh-freed m0.brk m0.traffics m.traffics m3.traffics m.brk ((b, w) ∷ ts) measured
              free_traffics
              (λ y.
                freed3 y
                ∙ ap (λ (h : Store (Node Traffic)). if has y ((b, w) ∷ ts) then none else h y)
                    whole)
              x,
        )

    report-Collected : Whenever (Collected m0) (report behind unfilled host config a b m)
    unfolding report
    report-Collected =
        Whenever->>= (Merged ((b, w) ∷ ts) ((a, v) ∷ cs) m) (Collected m0)
          (get_traffic_to_client a b m) _ merge-Merged
          (λ m1 is.
            let brk1 : m1.brk ≡ m.brk = ap (λ (y : Lists). y.brk) is.1.0 in
            let traffics1 : m1.traffics ≡ m.traffics = ap (λ (y : Lists). y.traffics) is.1.0 in
            Whenever-then (Collected m0)
              (build_ping_json_data host config (some max_string_len) (shown config.gw_ac_id) a m1)
              _
              (λ json.
                Whenever->>= (ClientsFreed (merged ((b, w) ∷ ts) ((a, v) ∷ cs)) m1) (Collected m0)
                  (destory_client_list a m1) _
                  (destory_client_list-Freed a _ (merged ((b, w) ∷ ts) cs) m1
                    (omega (arith, brk1, built.counted, length-merged ((b, w) ∷ ts) cs)) is.0)
                  (λ m2 freed2.
                    let brk2 : m2.brk ≡ m1.brk = ap (λ (y : Lists). y.brk) freed2.0 in
                    let traffics2 : m2.traffics ≡ m1.traffics =
                      ap (λ (y : Lists). y.traffics) freed2.0 in
                    Whenever->>= (TrafficsFreed ((b, w) ∷ ts) m2) (Collected m0)
                      (destory_traffic_list b m2) _
                      (destory_traffic_list-Freed b w ts m2
                        (omega (arith, brk1, brk2, measured.counted))
                        (subst (λ (h : Store (Node Traffic)). Linked h null ((b, w) ∷ ts))
                          (sym (traffics2 ∙ traffics1)) measured.linked))
                      (λ m3 freed3 text e. both_freed m1 m2 m3 is freed2 freed3))))

  zero_of : (ret : ℤ) → holds ret ≡ false → ret ≡ pos 0
  zero_of (pos n) e = ground arith
  zero_of (negsuc n) e = cc

  no_text : (m : Lists) → Collected m0 (none, m)
  no_text m text e = absurd (ground (arith, e))

  read_traffics-Collected :
      (a b : Ptr) (v : Client) (cs : Cells Client) (m : Lists)
      → Fresh m0.brk m0.clients m.clients m.brk ((a, v) ∷ cs)
      → b ≢ null
      → m0.brk ≤ b
      → b < m.brk
      → ((x : Ptr) → x ≢ b → m.traffics x ≡ m0.traffics x)
      → Whenever (Collected m0) (read_traffics behind unfilled host config a b m)
  unfolding read_traffics
  read_traffics-Collected a b v cs m is ne le lt same =
      Whenever->>= (Gauged m0.brk m0.traffics b m) (Collected m0)
        (init_traffic_list behind unfilled.traffic b (host.open_file traffic_file) m) _
        (init_traffic_list-Gauged m0.brk m0.traffics behind unfilled.traffic b
          (host.open_file traffic_file) m ne le lt same)
        (λ (ret, m') gauged.
          Whenever-if (Collected m0) (holds ret) _ _
            (λ e. Whenever-then (Collected m0) (destory_client_list a m') _ (λ m''. no_text m''))
            (λ e.
              let measured = gauged (zero_of ret e) in
              report-Collected a b v measured.value cs measured.cells m'
                (rw measured.others (
                  Fresh-mono m0.brk m0.clients m.clients m.brk m'.brk ((a, v) ∷ cs) measured.further
                    is))
                measured.fresh))

  read_clients-Collected :
      (a b : Ptr) (m : Lists)
      → a ≢ null
      → b ≢ null
      → m0.brk ≤ a
      → a < b
      → b < m.brk
      → ((x : Ptr) → x ≢ a → m.clients x ≡ m0.clients x)
      → ((x : Ptr) → x ≢ b → m.traffics x ≡ m0.traffics x)
      → Whenever (Collected m0) (read_clients behind unfilled host config a b m)
  unfolding read_clients
  read_clients-Collected a b m ne ne' le lt lt' same same' =
      Whenever->>= (Filled m0.brk m0.clients a m) (Collected m0)
        (init_client_list behind unfilled.client a (host.open_file dhcp_leases_file) m) _
        (init_client_list-Filled m0.brk m0.clients behind unfilled.client a
          (host.open_file dhcp_leases_file) m ne le (omega arith) same)
        (λ (ret, m') filled.
          Whenever-if (Collected m0) (holds ret) _ _ (λ e. no_text m')
            (λ e.
              let built = filled (zero_of ret e) in
              read_traffics-Collected a b built.value built.cells m' built.fresh ne' (omega arith)
                (omega (arith, built.further))
                (λ x ne. ap (λ (h : Store (Node Traffic)). h x) built.others ∙ same' x ne)))

  -- Whatever the files of the host hold: when the data was collected, both lists have been freed, and
  -- the heaps hold just what they held before, where nothing was allocated from the next address on.
  pub collect-Collected : Whenever (Collected m0) (collect behind unfilled host config m0)
  unfolding collect
  collect-Collected =
      Whenever-then (Collected m0) (update_ac_information host (codes "traffic_update")) _ (λ ret.
        Whenever-if (Collected m0) (m0.room == 0) _ _ (λ e. no_text m0)
          (λ e.
            Whenever-if (Collected m0) (m0.room - 1 == 0) _ _
              (λ e.
                Whenever-then (Collected m0) (destory_client_list m0.brk (client_node unfilled m0))
                  _ (λ m'. no_text m'))
              (λ e.
                read_clients-Collected m0.brk (m0.brk + 1)
                  (traffic_node unfilled (client_node unfilled m0)) some_brk (λ i. omega arith)
                  (omega arith) (omega arith) (omega arith) (λ x ne. write_ne _ m0.brk x _ ne)
                  (λ x ne. write_ne _ (m0.brk + 1) x _ ne))))
