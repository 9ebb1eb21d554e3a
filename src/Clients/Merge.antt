-- ===== src/Clients/Merge.antt =====
-- The merge of the traffic into the clients.
use smart_ac.Base.{
  ℕ, zero, suc, ◌<◌, ◌≡◌, ◌≢◌, refl, false, true, Option, some, none, [], ◌∷◌, arith, ◌==◌, length,
  sym, ap, ◌∙◌, ◌+◌, ◌||◌,
}
use smart_ac.Clients.{
  Client, Traffic, Lists, with_traffic, copy_traffic, merge_loop, get_traffic_to_client,
}
use smart_ac.Clients.Find.{first_match, address, find_node-Linked, Loads, first_match-Linked}
use smart_ac.Cstring.{equal}
use smart_ac.Outcome.{ok, Returns, Returns-mono, Returns->>=, Returns-if}
use smart_ac.Store.{Ptr, null, Store, Node, node, Cells, has, first, Linked}
use smart_ac.Store.Linked.{load-Linked, Linked-frame, write_self, write_ne}

abbrev pub measured : Cells Traffic → Client → Option (Ptr × Traffic)
measured ts c = first_match (λ t. equal t.traffic_ip c.c_ip) ts

abbrev pub updated : Option (Ptr × Traffic) → Client → Client
updated none c = c
updated (some (p, t)) c = with_traffic t c

-- Each client with the first traffic entry of its address, where there is one.
abbrev pub merged : Cells Traffic → Cells Client → Cells Client
merged ts [] = []
merged ts ((p, c) ∷ cs) = (p, updated (measured ts c) c) ∷ merged ts cs

pub has-merged :
    (a : Ptr) (ts : Cells Traffic) (cs : Cells Client) → has a (merged ts cs) ≡ has a cs
has-merged a ts [] = refl
has-merged a ts ((p, c) ∷ cs) = ap ((a == p) ||◌) (has-merged a ts cs)

pub length-merged : (ts : Cells Traffic) (cs : Cells Client) → length (merged ts cs) ≡ length cs
length-merged ts [] = refl
length-merged ts ((p, c) ∷ cs) = ap suc (length-merged ts cs)

first-merged :
    (stop : Ptr) (ts : Cells Traffic) (cs : Cells Client)
    → first stop (merged ts cs) ≡ first stop cs
first-merged stop ts [] = refl
first-merged stop ts ((p, c) ∷ cs) = refl

-- Only the nodes of the client list are written.
abbrev pub OnlyClients : Cells Client → Lists → Lists → Type 0
OnlyClients cs m m' =
    (m' ≡ record m { clients = m'.clients })
    × ((a : Ptr) → has a cs ≡ false → m'.clients a ≡ m.clients a)

-- What the merge makes of the heap.
abbrev pub Merged : Cells Traffic → Cells Client → Lists → Lists → Type 0
Merged ts cs m m' = Linked m'.clients null (merged ts cs) × OnlyClients cs m m'

module _ (m : Lists) (p : Ptr) (c : Client) (n : Ptr) (at : m.clients p ≡ some (node c n)) where
  -- The node gets the new numbers in place, and nothing else is written.
  abbrev Copied : Option (Ptr × Traffic) → Lists → Type 0
  Copied o m' =
      (m' ≡ record m { clients = m'.clients })
      × (m'.clients p ≡ some (node (updated o c) n))
      × ((a : Ptr) → a ≢ p → m'.clients a ≡ m.clients a)

  copy_traffic-Copied :
      (o : Option (Ptr × Traffic))
      → Loads m.traffics o
      → Returns (Copied o) (copy_traffic p (node c n) (address (λ _. true) o) m)
  unfolding copy_traffic
  copy_traffic-Copied none l = (refl, at, λ a ne. refl)
  copy_traffic-Copied (some (q, t)) (ne, (n', e)) =
      rw (ne, e) (refl, write_self _ _ _, λ a d. write_ne _ p a _ d)

  -- One round on the first node, and the rounds on the others.
  rounds-Linked :
      (ts : Cells Traffic) (cs : Cells Client) (m' m'' : Lists)
      → Linked m.clients null ((p, c) ∷ cs)
      → n ≡ first null cs
      → Copied (measured ts c) m'
      → Merged ts cs m' m''
      → Merged ts ((p, c) ∷ cs) m m''
  rounds-Linked ts cs m' m'' l e (same, here, other) (l', (same', other')) = (
    (
      l.0,
      other' p l.2
          ∙ here
          ∙ ap (λ q. some (node (updated (measured ts c) c) q)) (e ∙ sym (first-merged null ts cs)),
      has-merged p ts cs ∙ l.2,
      l',
    ),
    (
      same'
          ∙ ap {A = Lists}
              (λ (x : Lists). record {
                clients = m''.clients;
                traffics = x.traffics;
                brk = x.brk;
                room = x.room;
              })
              same,
      λ a out. other' a (ground arith) ∙ other a (λ i. ground arith),
    ),
  )

merge_loop-Linked :
    (fuel : ℕ) (ts : Cells Traffic) (cs : Cells Client) (m : Lists)
    → length cs < fuel
    → length ts < m.brk + 1
    → Linked m.traffics null ts
    → Linked m.clients null cs
    → Returns (Merged ts cs m) (merge_loop fuel (first null ts) (first null cs) m)
unfolding merge_loop
merge_loop-Linked zero ts cs m f f' lt lc = absurd (omega arith)
merge_loop-Linked (suc k) ts [] m f f' lt lc = (tt, (refl, λ a out. refl))
merge_loop-Linked (suc k) ts ((p, c) ∷ cs) m f f' lt lc =
    let some_node : (p == null) ≡ false = ground (arith, lc.0) in
    rw
      (
        some_node,
        load-Linked m.clients null p c cs lc,
        find_node-Linked (λ t. equal t.traffic_ip c.c_ip) m.traffics (m.brk + 1) ts f' lt,
      )
      (Returns->>= (Copied m p c (first null cs) lc.1 (measured ts c)) (Merged ts ((p, c) ∷ cs) m) _
        _
        (copy_traffic-Copied m p c (first null cs) lc.1 (measured ts c)
          (first_match-Linked (λ t. equal t.traffic_ip c.c_ip) m.traffics ts lt))
        (λ m' copied.
          Returns-mono (Merged ts cs m') (Merged ts ((p, c) ∷ cs) m) _
            (merge_loop-Linked k ts cs m' (omega arith)
              (omega (arith, ap (λ (x : Lists). x.brk) copied.0))
              (rw (ap (λ (x : Lists). x.traffics) copied.0) lt)
              (Linked-frame m.clients m'.clients null cs (λ a i. copied.2 a (λ e. cc (i, lc.2)))
                lc.3))
            (λ m'' r. rounds-Linked m p c (first null cs) lc.1 ts cs m' m'' lc refl copied r)))

merged_nil : (cs : Cells Client) → merged [] cs ≡ cs
merged_nil [] = refl
merged_nil ((p, c) ∷ cs) = ap ((p, c) ∷◌) (merged_nil cs)

empty-Linked :
    (h : Store (Node Client)) (g : Store (Node Traffic)) (cs : Cells Client) (ts : Cells Traffic)
    → (first null cs == null || first null ts == null) ≡ true
    → Linked h null cs
    → Linked g null ts
    → Linked h null (merged ts cs)
empty-Linked h g [] ts e lc lt = tt
empty-Linked h g ((p, c) ∷ cs) [] e lc lt = rw (merged_nil cs) lc
empty-Linked h g ((p, c) ∷ cs) ((q, t) ∷ ts) e lc lt = absurd (ground (arith, lc.0, lt.0))

-- On two lists that stand in the heap, with more addresses than nodes, the merge never does anything
-- undefined; each client gets the numbers of the first traffic entry of its address and keeps
-- everything else, a client with no such entry is unchanged, and no other memory is written.
pub get_traffic_to_client-Merged :
    (cs : Cells Client) (ts : Cells Traffic) (m : Lists)
    → length cs < m.brk
    → length ts < m.brk
    → Linked m.clients null cs
    → Linked m.traffics null ts
    → Returns (Merged ts cs m) (get_traffic_to_client (first null cs) (first null ts) m)
unfolding get_traffic_to_client
get_traffic_to_client-Merged cs ts m f f' lc lt =
    Returns-if (Merged ts cs m) (first null cs == null || first null ts == null) (ok m) _
      (λ e. (empty-Linked m.clients m.traffics cs ts e lc lt, (refl, λ a out. refl)))
      (λ e. merge_loop-Linked (m.brk + 1) ts cs m (omega arith) (omega arith) lt lc)
