-- ===== src/Clients/Files/Leases.antt =====
-- `init_client_list` on a file of DHCP leases: the leases, their lines, and the list that they make.
pub mod Append
pub mod Read
use mathlib.Core.Path.{subst}
use smart_ac.Base.{
  ℕ, zero, suc, ◌+◌, ◌-◌, ◌≤◌, ◌<◌, ◌≡◌, ◌≢◌, refl, ap, sym, ◌∙◌, Bool, true, false, ◌&&◌, Option,
  none, some, List, [], ◌∷◌, ◌++◌, Bytes, ◌==◌, ltb, if◌then◌else◌, length, map, arith,
  append_assoc, append-nil, length-append, lt→ltb, replicate,
}
use smart_ac.Clients.{Client, Lists, destory_client_list}
use smart_ac.Clients.Fields.{
  Slot, unset, at, is_delimiter, split_line, cut_line, seg_text, get_slot, slot_text, store_field,
}
use smart_ac.Clients.Fields.Split.{
  Fields, Clean, print, body, slots, o1, o2, o3, split_line-print, slot_text-print, fgets-print,
}
use smart_ac.Clients.Files.{fill_client, next_client, put_client, client_loop, init_client_list}
use smart_ac.Config.Line.{fgets}
use smart_ac.Cstring.Number.{ℤ, pos, negsuc}
use smart_ac.Outcome.{Outcome, ok, ◌>>=◌, within, Returns, Returns-mono}
use smart_ac.Store.{Ptr, null, Store, node, write, load, Cells, has, first, Linked}
use smart_ac.Store.Linked.{
  Below, Below-mono, Below-snoc, has-lt, not-has_of_le, last_of, has-last_of, last_of-Linked,
  last_of-snoc, Linked-snoc, write_self, write_ne, load-some,
}

-- The second to fourth fields of a lease are what is kept of it.
abbrev pub client_of : Fields → Client
client_of f = record {
  c_ip = f.f2;
  c_mac = f.f1;
  c_hostname = f.f3;
  incoming = pos 0;
  outgoing = pos 0;
  go_speed = pos 0;
  come_speed = pos 0;
}

module _ (behind : Bytes) (newline : is_delimiter behind b'\n' ≡ false) where
  -- A lease whose fields fit into the arrays, and its line into the line's.
  pub record IsLease (f : Fields) : Type 0 where
    pub clean : Clean behind newline f
    pub mac : length f.f1 < 18
    pub ip : length f.f2 < 16
    pub hostname : length f.f3 < 64
    pub line : length (body behind newline f) < 511

  fill_client-print :
      (f : Fields) (seg : List Slot)
      → IsLease f
      → fill_client (cut_line behind (print behind newline f)) (slots behind newline f seg)
        ≡ ok (client_of f)
  unfolding fill_client seg_text get_slot store_field
  fill_client-print f seg is =
      let (e0, e1, e2, e3) = slot_text-print behind newline f is.clean in
      rw (e1, lt→ltb _ _ is.mac, e2, lt→ltb _ _ is.ip, e3, lt→ltb _ _ is.hostname) refl

  abbrev pub print_all : List Fields → Bytes
  print_all [] = []
  print_all (f ∷ fs) = print behind newline f ++ print_all fs

  abbrev pub AreLeases : List Fields → Type 0
  AreLeases [] = Unit
  AreLeases (f ∷ fs) = IsLease f × AreLeases fs

  -- The list has become longer by the leases, in their order.
  abbrev pub Filled : Ptr → Client → Cells Client → List Fields → (ℤ × Lists) → Type 0
  Filled a v cs fs (r, m') =
      (r ≡ pos 0)
      × ((new : Cells Client) × Linked m'.clients null ((a, v) ∷ (cs ++ new))
          × (map (λ c. c.1) new ≡ map client_of fs))

  module _ (client : Client) where
    pub client_loop-line :
        (k : ℕ) (list head pre : Ptr) (seg seg' : List Slot) (s line rest : Bytes) (m : Lists)
        → 0 < length s
        → fgets 511 s ≡ (line, rest)
        → split_line behind line seg ≡ ok seg'
        → (head == null && m.room == 0) ≡ false
        → client_loop behind client (suc k) list head pre seg s m ≡ (do
          (head, pre, m) ← next_client behind client head pre m
          m ← put_client behind client line seg' head m
          client_loop behind client k list null pre seg' rest m)
    unfolding client_loop
    client_loop-line k list head pre seg seg' [] line rest m lt e e' room = absurd (omega arith)
    client_loop-line k list head pre seg seg' (c ∷ s) line rest m lt e e' room =
        rw (e, e', room) refl
