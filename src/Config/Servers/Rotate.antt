-- ===== src/Config/Servers/Rotate.antt =====
-- What the operations on the server list do to the list that it stands for.
use smart_ac.Base.{
  ◌+◌, ◌≡◌, ◌≢◌, refl, sym, ◌∙◌, true, false, List, [], ◌∷◌, ◌++◌, some, ◌==◌, length-append, arith,
}
use smart_ac.Config.{AcServer, State}
use smart_ac.Config.Servers.{append_server, move_to_end, mark_ac_server_bad, IsServers}
use smart_ac.Outcome.{ok, Returns}
use smart_ac.Store.{Ptr, null, Store, Node, node, write, Cells, has, Linked}
use smart_ac.Store.Linked.{
  Below-mono, Below-snoc, has-lt, not-has_of_le, last_of, has-last_of, last_of-Linked, load-Linked,
  last_node-Linked, Linked-frame, Linked-snoc, write_self, write_ne, load-some,
}

-- The first server becomes the last.
abbrev pub rotate {ℓ} : {A : Type ℓ} → List A → List A
rotate [] = []
rotate (c ∷ cs) = cs ++ c ∷ []

module _ (s : State) (a : Ptr) (v : AcServer) (b : Ptr) (w : AcServer) (cs : Cells AcServer)
    (is : IsServers s ((a, v) ∷ (b, w) ∷ cs)) where
  -- The address and the value of the last server.
  abbrev last : Ptr × AcServer
  last = last_of b w cs

  last_ne_first : last.0 ≢ a
  last_ne_first = λ e. cc (is.chain.2, has-last_of b w cs)

  at_last : (last.0 ≢ null) × (s.servers last.0 ≡ some (node last.1 null))
  at_last = last_of-Linked s.servers null b w cs is.chain.3

  at_first : write s.servers last.0 (some (node last.1 a)) a ≡ some (node v b)
  at_first = write_ne _ last.0 a _ (λ e. last_ne_first (sym e)) ∙ is.chain.1

  moved : Store (Node AcServer)
  moved = write (write s.servers last.0 (some (node last.1 a))) a (some (node v null))

  move_to_end-eq :
      move_to_end a s
      ≡ ok (record s { config = record s.config { ac_servers = b }; servers = moved })
  unfolding move_to_end moved
  move_to_end-eq =
      rw
        (
          is.head,
          last_node-Linked s.servers (s.brk + 1) a v ((b, w) ∷ cs) (omega (arith, is.counted))
              is.chain,
          load-some s.servers last.0 (node last.1 null) at_last.0 at_last.1,
          load-some (write s.servers last.0 (some (node last.1 a))) a (node v b) is.chain.0
              at_first,
        )
        refl

  moved-Linked : Linked moved null ((b, w) ∷ (cs ++ (a, v) ∷ []))
  unfolding moved
  moved-Linked =
      Linked-snoc s.servers _ null null a v b w cs is.chain.3
        (write_ne _ a last.0 _ last_ne_first ∙ write_self _ _ _)
        (λ x i d. write_ne _ a x _ (λ e. cc (i, is.chain.2)) ∙ write_ne _ last.0 x _ d) is.chain.0
        (write_self _ _ _) is.chain.2

  moved-IsServers :
      IsServers
        (record s { config = record s.config { ac_servers = b }; servers = moved })
        ((b, w) ∷ (cs ++ (a, v) ∷ []))
  moved-IsServers = record {
    head = refl;
    chain = moved-Linked;
    below = Below-snoc s.brk a v ((b, w) ∷ cs) is.below.0 is.below.1;
    counted = ground (arith, length-append cs ((a, v) ∷ []), is.counted);
  }

-- Marking the first server of a well-formed list bad always returns, and turns the list by one place,
-- which is no change to a list of one; of the state, only the links of the list are written.
pub mark_ac_server_bad-rotate :
    (s : State) (a : Ptr) (v : AcServer) (cs : Cells AcServer)
    → IsServers s ((a, v) ∷ cs)
    → Returns
        (λ s'.
          IsServers s' (rotate ((a, v) ∷ cs))
          × (s' ≡ record s {
            config = record s.config { ac_servers = s'.config.ac_servers };
            servers = s'.servers;
          }))
        (mark_ac_server_bad a s)
unfolding mark_ac_server_bad
mark_ac_server_bad-rotate s a v [] is =
    let same : (s.config.ac_servers == a) ≡ true = ground (arith, is.head) in
    rw (same, load-Linked s.servers null a v [] is.chain) (is, refl)
mark_ac_server_bad-rotate s a v ((b, w) ∷ cs) is =
    let same : (s.config.ac_servers == a) ≡ true = ground (arith, is.head) in
    let more : (b == null) ≡ false = ground (arith, is.chain.3.0) in
    rw
      (
        same,
        load-Linked s.servers null a v ((b, w) ∷ cs) is.chain,
        more,
        move_to_end-eq s a v b w cs is,
      )
      (moved-IsServers s a v b w cs is, refl)

-- A server that is not the first stays where it is.
pub mark_ac_server_bad-other :
    (s : State) (bad : Ptr) → s.config.ac_servers ≢ bad → mark_ac_server_bad bad s ≡ ok s
unfolding mark_ac_server_bad
mark_ac_server_bad-other s bad ne = ground arith

-- The parts of the state that the append of a server writes.
abbrev pub Appended : State → State → Type 0
Appended s s' = s' ≡ record s {
  config = record s.config { ac_servers = s'.config.ac_servers };
  servers = s'.servers;
  brk = s.brk + 1;
}

module _ (s : State) (new : AcServer) where
  grown : Store (Node AcServer)
  grown = write s.servers s.brk (some (node new null))

  module _ (a : Ptr) (v : AcServer) (cs : Cells AcServer) (is : IsServers s ((a, v) ∷ cs)) where
    fresh : (x : Ptr) → has x ((a, v) ∷ cs) ≡ true → x ≢ s.brk
    fresh x i = λ e. absurd (omega (arith, has-lt s.brk x ((a, v) ∷ cs) i is.below))

    grown-Linked : Linked grown null ((a, v) ∷ cs)
    unfolding grown
    grown-Linked =
        Linked-frame s.servers _ null ((a, v) ∷ cs) (λ x i. write_ne _ s.brk x _ (fresh x i))
          is.chain

    appended-Linked :
        let (q, w) = last_of a v cs in
        Linked (write grown q (some (node w s.brk))) null ((a, v) ∷ (cs ++ (s.brk, new) ∷ []))
    unfolding grown
    appended-Linked =
        let apart = λ (e : s.brk ≡ (last_of a v cs).0). fresh _ (has-last_of a v cs) (sym e) in
        Linked-snoc grown _ null null s.brk new a v cs grown-Linked (write_self _ _ _)
          (λ x i d. write_ne _ _ x _ d) (λ e. absurd (omega (arith, is.counted)))
          (write_ne _ _ s.brk _ apart ∙ write_self _ _ _)
          (not-has_of_le s.brk s.brk ((a, v) ∷ cs) (omega arith) is.below)

  -- The append to a well-formed list always returns; the server is then behind those that were there,
  -- and of the state only the list is written and an address taken.
  pub append_server-IsServers :
      (cs : Cells AcServer)
      → IsServers s cs
      → Returns (λ s'. IsServers s' (cs ++ (s.brk, new) ∷ []) × Appended s s') (append_server new s)
  unfolding append_server
  append_server-IsServers [] is = rw is.head (
    record {
      head = refl;
      chain = ((λ e. absurd (omega (arith, is.counted))), write_self _ _ _, refl, tt);
      below = (omega arith, tt);
      counted = omega (arith, is.counted);
    },
    refl,
  )
  append_server-IsServers ((a, v) ∷ cs) is =
      let some_server : (s.config.ac_servers == null) ≡ false =
        ground (arith, is.head, is.chain.0) in
      let (ne, at) = last_of-Linked grown null a v cs (grown-Linked a v cs is) in
      unfold grown in
      rw
        (
          some_server,
          is.head,
          last_node-Linked grown (s.brk + 1) a v cs (omega (arith, is.counted))
              (grown-Linked a v cs is),
          load-some grown (last_of a v cs).0 _ ne at,
        )
        (
          record {
            head = refl;
            chain = appended-Linked a v cs is;
            below =
                Below-snoc (s.brk + 1) s.brk new ((a, v) ∷ cs) (omega arith)
                  (Below-mono s.brk (s.brk + 1) ((a, v) ∷ cs) (omega arith) is.below);
            counted = ground (arith, length-append cs ((s.brk, new) ∷ []), is.counted);
          },
          refl,
        )
