-- ===== src/Clients/Files/Leases/Append.antt =====
-- `next_client` and `put_client` at the end of a list of clients.
use smart_ac.Base.{◌+◌, ◌-◌, ◌≡◌, refl, some, List, [], ◌∷◌, ◌++◌, Bytes}
use smart_ac.Clients.{Client, Lists}
use smart_ac.Clients.Fields.{Slot, cut_line}
use smart_ac.Clients.Files.{fill_client, next_client, put_client}
use smart_ac.Outcome.{ok}
use smart_ac.Store.{Ptr, null, node, write, Cells, Linked}
use smart_ac.Store.Allocated.{allocated, load-last, load-new, Linked-allocated, Below-allocated}
use smart_ac.Store.Linked.{Below, last_of}

module _ (behind : Bytes) (client : Client) where
  -- One more node, filled with `c`, behind a list.
  module _ (m : Lists) (a : Ptr) (v : Client) (cs : Cells Client) (c : Client)
      (l : Linked m.clients null ((a, v) ∷ cs)) (b : Below m.brk ((a, v) ∷ cs)) where
    abbrev last : Ptr × Client
    last = last_of a v cs

    unfoldable pub with_next : Lists
    with_next = record m {
      clients = allocated m.clients m.brk client last;
      brk = m.brk + 1;
      room = m.room - 1;
    }

    unfoldable pub with_client : Lists
    unfolding with_next
    with_client = record with_next { clients = write with_next.clients m.brk (some (node c null)) }

    pub next_client-eq : next_client behind client null last.0 m ≡ ok (m.brk, m.brk, with_next)
    unfolding next_client with_next
    next_client-eq = rw (load-last m.clients m.brk a v cs l b) refl

    pub put_client-eq :
        (line : Bytes) (seg : List Slot)
        → fill_client (cut_line behind line) seg ≡ ok c
        → put_client behind client line seg m.brk with_next ≡ ok with_client
    unfolding put_client with_client with_next
    put_client-eq line seg e = rw (e, load-new m.clients m.brk a v cs l b client) refl

    pub with_client-Linked : Linked with_client.clients null ((a, v) ∷ (cs ++ (m.brk, c) ∷ []))
    unfolding with_client with_next
    with_client-Linked = Linked-allocated m.clients m.brk a v cs l b client c

    pub with_client-room : with_client.room ≡ m.room - 1
    unfolding with_client with_next
    with_client-room = refl

    pub with_client-Below : Below with_client.brk ((a, v) ∷ (cs ++ (m.brk, c) ∷ []))
    unfolding with_client with_next
    with_client-Below = Below-allocated m.brk a v cs b c
