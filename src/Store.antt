-- ===== src/Store.antt =====
-- A heap of objects of one type, and the singly linked lists that the C code builds in it by
-- `next` pointers: the server list of smartac_config.c, the nodes of smartac_resultqueue.c
-- and the lists of smartac_json_util.c.
pub mod Linked
pub mod Allocated
pub mod Fresh
use smart_ac.Base.{
  ℕ, zero, suc, ◌≡◌, ◌≢◌, Bool, false, ◌||◌, Option, none, some, List, [], ◌∷◌, ◌==◌, if◌then◌else◌,
}
use smart_ac.Outcome.{Outcome, ok, fault, ◌>>=◌, deref}

-- An address; `NULL` is 0 and points at no object.
abbrev pub Ptr : Type 0
Ptr = ℕ

abbrev pub null : Ptr
null = 0

abbrev pub Store : Type 0 → Type 0
Store A = Ptr → Option A

-- A struct whose last field is `next`, split into its other fields and that one.
pub record Node (V : Type 0) : Type 0 where
  pub value : V
  pub next : Ptr

abbrev pub node : {V : Type 0} → V → Ptr → Node V
node v q = record { value = v; next = q }

module _ {A : Type 0} where
  unfoldable pub write : Store A → Ptr → Option A → Store A
  write h p c a = if a == p then c else h a

  -- `*p`
  unfoldable pub load : Store A → Ptr → Outcome A
  load h p = if p == null then fault else deref (h p)

module _ {V : Type 0} where
  -- `for (tmp = p; tmp->next != NULL; tmp = tmp->next) ;`
  unfoldable pub last_node : ℕ → Store (Node V) → Ptr → Outcome Ptr
  last_node zero h p = fault
  last_node (suc fuel) h p = do
    n ← load h p
    let rest = last_node fuel h n.next
    if n.next == null then ok p else rest

  -- `for (tmp = p; tmp; tmp = tmp->next) count++;`
  unfoldable pub count_nodes : ℕ → Store (Node V) → Ptr → ℕ → Outcome ℕ
  count_nodes zero h p acc = fault
  count_nodes (suc fuel) h p acc =
      let rest = (do n ← load h p; count_nodes fuel h n.next (suc acc)) in
      if p == null then ok acc else rest

-- The list that a chain of nodes stands for: each node's address and its fields.
abbrev pub Cells : Type 0 → Type 0
Cells V = List (Ptr × V)

module _ {V : Type 0} where
  abbrev pub has : Ptr → Cells V → Bool
  has a [] = false
  has a ((p, v) ∷ cs) = (a == p) || has a cs

  -- The address of the first node, or `stop` where there is none.
  abbrev pub first : Ptr → Cells V → Ptr
  first stop [] = stop
  first stop ((p, v) ∷ cs) = p

  -- The nodes of the list stand in the heap, each at its own address, linked in order up to `stop`.
  abbrev pub Linked : Store (Node V) → Ptr → Cells V → Type 0
  Linked h stop [] = Unit
  Linked h stop ((p, v) ∷ cs) =
      (p ≢ null) × (h p ≡ some (node v (first stop cs))) × (has p cs ≡ false) × Linked h stop cs
