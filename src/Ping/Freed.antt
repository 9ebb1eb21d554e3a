-- ===== src/Ping/Freed.antt =====
-- What the frees of the two lists leave in the heaps.
use smart_ac.Base.{◌+◌, ◌<◌, ◌≡◌, refl, ◌∙◌, Bool-cases, inl, inr, ◌∷◌, length}
use smart_ac.Clients.{Client, Traffic, Lists, free_nodes, destory_client_list, destory_traffic_list}
use smart_ac.Clients.Find.{Freed, free_nodes-Linked}
use smart_ac.Clients.Merge.{merged, has-merged, Merged}
use smart_ac.Outcome.{Whenever, Whenever->>=, Whenever-of_Returns}
use smart_ac.Store.{Ptr, null, Cells, has, Linked}

-- Only the list of clients was freed.
abbrev pub ClientsFreed : Cells Client → Lists → Lists → Type 0
ClientsFreed cs m m' = (m' ≡ record m { clients = m'.clients }) × Freed m.clients cs m'.clients

pub destory_client_list-Freed :
    (a : Ptr) (v : Client) (cs : Cells Client) (m : Lists)
    → length ((a, v) ∷ cs) < m.brk + 1
    → Linked m.clients null ((a, v) ∷ cs)
    → Whenever (ClientsFreed ((a, v) ∷ cs) m) (destory_client_list a m)
unfolding destory_client_list
destory_client_list-Freed a v cs m f l =
    Whenever->>= (Freed m.clients ((a, v) ∷ cs)) (ClientsFreed ((a, v) ∷ cs) m)
      (free_nodes (m.brk + 1) m.clients a) _
      (Whenever-of_Returns (Freed m.clients ((a, v) ∷ cs)) _
        (free_nodes-Linked m.clients (m.brk + 1) ((a, v) ∷ cs) f l))
      (λ h freed. (refl, freed))

abbrev pub TrafficsFreed : Cells Traffic → Lists → Lists → Type 0
TrafficsFreed ts m m' = (m'.clients ≡ m.clients) × Freed m.traffics ts m'.traffics

pub destory_traffic_list-Freed :
    (b : Ptr) (w : Traffic) (ts : Cells Traffic) (m : Lists)
    → length ((b, w) ∷ ts) < m.brk + 1
    → Linked m.traffics null ((b, w) ∷ ts)
    → Whenever (TrafficsFreed ((b, w) ∷ ts) m) (destory_traffic_list b m)
unfolding destory_traffic_list
destory_traffic_list-Freed b w ts m f l =
    Whenever->>= (Freed m.traffics ((b, w) ∷ ts)) (TrafficsFreed ((b, w) ∷ ts) m)
      (free_nodes (m.brk + 1) m.traffics b) _
      (Whenever-of_Returns (Freed m.traffics ((b, w) ∷ ts)) _
        (free_nodes-Linked m.traffics (m.brk + 1) ((b, w) ∷ ts) f l))
      (λ h freed. (refl, freed))

-- The list of clients is freed after the merge just as it would have been before.
pub Freed-merged :
    (ts : Cells Traffic) (cs : Cells Client) (m m1 m2 : Lists)
    → Merged ts cs m m1
    → Freed m1.clients (merged ts cs) m2.clients
    → Freed m.clients cs m2.clients
Freed-merged ts cs m m1 m2 (l, (same, other)) freed a =
    freed a
    ∙ rw (has-merged a ts cs)
        (elim (Bool-cases (has a cs)) [ inl e ↦ rw e refl | inr e ↦ rw e (other a e) ])
