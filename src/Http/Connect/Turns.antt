-- ===== src/Http/Connect/Turns.antt =====
-- The list of servers as a call of `connect_ac_server` sees and turns it.
use smart_ac.Base.{
  ℕ, zero, suc, ◌+◌, ◌≡◌, refl, ap, ◌∙◌, false, Option, some, List, [], ◌∷◌, map, Bytes, ◌==◌,
  length, length-append, arith,
}
use mathlib.Core.List.{map-append}
use smart_ac.Config.{AcServer, State}
use smart_ac.Config.Servers.{IsServers}
use smart_ac.Config.Servers.Rotate.{rotate}
use smart_ac.Cstring.Number.{ℤ}
use smart_ac.Http.Connect.{with_last_ip}
use smart_ac.Outcome.{ok}
use smart_ac.Store.{Ptr, null, node, write, load, count_nodes, Cells, first}
use smart_ac.Store.Linked.{Linked-put, load-Linked, count_nodes-Linked, write_self, write_ne}

-- What identifies a server, whatever its last known address.
pub record Identity : Type 0 where
  pub at : Ptr
  pub hostname : Bytes
  pub ping_path : Bytes
  pub result_path : Bytes
  pub port : ℤ

abbrev pub identity : Ptr × AcServer → Identity
identity (p, v) = record {
  at = p;
  hostname = v.hostname;
  ping_path = v.ping_path;
  result_path = v.result_path;
  port = v.port;
}

abbrev pub rotate_by {ℓ} : {A : Type ℓ} → ℕ → List A → List A
rotate_by zero xs = xs
rotate_by (suc n) xs = rotate_by n (rotate xs)

pub map-rotate {ℓ κ} :
    {A : Type ℓ} {B : Type κ} (f : A → B) (xs : List A) → map f (rotate xs) ≡ rotate (map f xs)
map-rotate f [] = refl
map-rotate f (x ∷ xs) = rw map-append

pub put-IsServers :
    (s : State) (p : Ptr) (v : AcServer) (ip : Option Bytes) (cs : Cells AcServer)
    → IsServers s ((p, v) ∷ cs)
    → IsServers
        (record s { servers = write s.servers p (some (with_last_ip ip (node v (first null cs)))) })
        ((p, record v { last_ip = ip }) ∷ cs)
put-IsServers s p v ip cs is = record {
  head = is.head;
  chain =
      Linked-put s.servers _ null p v _ cs (write_self _ _ _) (λ a ne. write_ne _ p a _ ne)
        is.chain;
  below = is.below;
  counted = is.counted;
}

pub length-rotate {ℓ} : {A : Type ℓ} (xs : List A) → length (rotate xs) ≡ length xs
length-rotate [] = refl
length-rotate (x ∷ xs) = omega (arith, length-append xs (x ∷ []))

-- What a call sees of the list at first: whether there is a server, how many, and which one.
pub top :
    (s : State) (p : Ptr) (v : AcServer) (cs : Cells AcServer)
    → IsServers s ((p, v) ∷ cs)
    → ((s.config.ac_servers == null) ≡ false)
      × (count_nodes (s.brk + 1) s.servers s.config.ac_servers 0 ≡ ok (suc (length cs)))
top s p v cs is = (
  ground (arith, is.head, is.chain.0),
  ap (λ q. count_nodes (s.brk + 1) s.servers q 0) is.head
      ∙ count_nodes-Linked s.servers (s.brk + 1) 0 ((p, v) ∷ cs) (omega (arith, is.counted))
          is.chain
      ∙ ap ok (omega arith),
)

pub load-top :
    (s : State) (p : Ptr) (v : AcServer) (cs : Cells AcServer)
    → IsServers s ((p, v) ∷ cs)
    → load s.servers s.config.ac_servers ≡ ok (node v (first null cs))
load-top s p v cs is = ap (load s.servers) is.head ∙ load-Linked s.servers null p v cs is.chain
