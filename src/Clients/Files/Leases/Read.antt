-- ===== src/Clients/Files/Leases/Read.antt =====
-- `client_loop` on the lines of a file of leases.
use mathlib.Core.Path.{subst}
use smart_ac.Base.{
  ℕ, zero, suc, ◌+◌, ◌≤◌, ◌<◌, ◌≡◌, ◌≢◌, refl, ap, sym, false, ◌&&◌, some, List, [], ◌∷◌, ◌++◌,
  Bytes, ◌==◌, length, arith, append_assoc, append-nil, length-append, replicate,
}
use smart_ac.Clients.{Client, Lists}
use smart_ac.Clients.Fields.{Slot, unset, is_delimiter}
use smart_ac.Clients.Fields.Split.{Fields, print, split_line-print, fgets-print}
use smart_ac.Clients.Files.{next_client, put_client, client_loop, init_client_list}
use smart_ac.Cstring.Number.{ℤ}
use smart_ac.Outcome.{ok, Returns, Returns-mono}
use smart_ac.Store.{Ptr, null, node, write, load, Cells, Linked}
use smart_ac.Store.Linked.{Below, last_of, last_of-snoc, write_self, load-some}
use smart_ac.Clients.Files.Leases.{
  client_of, IsLease, print_all, AreLeases, Filled, fill_client-print, client_loop-line,
}
use smart_ac.Clients.Files.Leases.Append.{
  with_client, next_client-eq, put_client-eq, with_client-Linked, with_client-room,
  with_client-Below,
}

module _ (behind : Bytes) (newline : is_delimiter behind b'\n' ≡ false) where
  module _ (client : Client) where
    one_more :
        (a : Ptr) (v : Client) (cs : Cells Client) (p : Ptr) (g : Fields) (fs : List Fields)
        (done : ℤ × Lists)
        → Filled behind newline a v (cs ++ (p, client_of g) ∷ []) fs done
        → Filled behind newline a v cs (g ∷ fs) done
    one_more a v cs p g fs (r, m') (e, (new, l, same)) = (
      e,
      (
        (p, client_of g) ∷ new,
        subst (λ ds. Linked m'.clients null ((a, v) ∷ ds))
            (append_assoc cs ((p, client_of g) ∷ []) new) l,
        ap (client_of g ∷◌) same,
      ),
    )

    print-nonempty : (f : Fields) (s : Bytes) → 0 < length (print behind newline f ++ s)
    print-nonempty f s = omega (
      arith,
      length-append (print behind newline f) s,
      length-append f.f0
          (b' ' ∷ (f.f1 ++ b' ' ∷ (f.f2 ++ b' ' ∷ (f.f3 ++ b' ' ∷ (f.f4 ++ b'\n' ∷ []))))),
    )

    length-print_all : (fs : List Fields) → length fs ≤ length (print_all behind newline fs)
    length-print_all [] = omega arith
    length-print_all (g ∷ fs) = omega (
      arith,
      length-print_all fs,
      print-nonempty g [],
      length-append (print behind newline g) [],
      length-append (print behind newline g) (print_all behind newline fs),
    )

    fields_loop :
        (k : ℕ) (fs : List Fields) (m : Lists) (list a pre : Ptr) (v : Client) (cs : Cells Client)
        → pre ≡ (last_of a v cs).0
        → length fs < k
        → length fs ≤ m.room
        → AreLeases behind newline fs
        → Linked m.clients null ((a, v) ∷ cs)
        → Below m.brk ((a, v) ∷ cs)
        → (x0 x1 x2 x3 x4 x5 : Slot) (seg : List Slot)
        → Returns (Filled behind newline a v cs fs) (
            client_loop behind client k list null pre
              (x0 ∷ x1 ∷ x2 ∷ x3 ∷ x4 ∷ x5 ∷ seg)
              (print_all behind newline fs)
              m)
    unfolding client_loop
    fields_loop zero fs m list a pre v cs e f room is l b x0 x1 x2 x3 x4 x5 seg =
        absurd (omega arith)
    fields_loop (suc k) [] m list a pre v cs e f room is l b x0 x1 x2 x3 x4 x5 seg =
        (refl, ([], rw (append-nil cs) l, refl))
    fields_loop (suc k) (g ∷ fs) m list a pre v cs e f room (is, are) l b x0 x1 x2 x3 x4 x5 seg =
        let more : (null == null && m.room == 0) ≡ false = ground arith in
        rw
          (
            client_loop-line behind newline client k list null pre
                (x0 ∷ x1 ∷ x2 ∷ x3 ∷ x4 ∷ x5 ∷ seg) _
                (print behind newline g ++ print_all behind newline fs) (print behind newline g)
                (print_all behind newline fs) m (print-nonempty g (print_all behind newline fs))
                (fgets-print behind newline 511 g (print_all behind newline fs) is.clean is.line)
                (split_line-print behind newline g is.clean x0 x1 x2 x3 x4 x5 seg) more,
            e,
            next_client-eq behind client m a v cs (client_of g) l b,
            put_client-eq behind client m a v cs (client_of g) l b _ _
                (fill_client-print behind newline g seg is),
          )
          (Returns-mono (Filled behind newline a v (cs ++ (m.brk, client_of g) ∷ []) fs)
            (Filled behind newline a v cs (g ∷ fs)) _
            (fields_loop k fs (with_client behind client m a v cs (client_of g) l b) list a m.brk v
              (cs ++ (m.brk, client_of g) ∷ [])
              (sym (ap (λ x. x.0) (last_of-snoc a v cs m.brk (client_of g)))) (omega arith)
              (omega (arith, with_client-room behind client m a v cs (client_of g) l b)) are
              (with_client-Linked behind client m a v cs (client_of g) l b)
              (with_client-Below behind client m a v cs (client_of g) l b) _ _ _ _ _ _ _)
            (λ done filled. one_more a v cs m.brk g fs done filled))

    -- A file of leases, of which there is at least one, is read in full: where each lease fits into the
    -- arrays and has no delimiter, newline or NUL in its fields, the newline is no delimiter, the given
    -- node exists and the allocations succeed, `init_client_list` returns 0 and the list stands for the
    -- leases, in their order, with the given node as its first.
    pub init_client_list-leases :
        (g : Fields) (fs : List Fields) (list : Ptr) (old : Client) (next : Ptr) (m : Lists)
        → m.clients list ≡ some (node old next)
        → list ≢ null
        → list < m.brk
        → length fs ≤ m.room
        → IsLease behind newline g
        → AreLeases behind newline fs
        → Returns
            (Filled behind newline list (client_of g) [] fs)
            (init_client_list behind client list (some (print_all behind newline (g ∷ fs))) m)
    unfolding init_client_list next_client put_client
    init_client_list-leases g fs list old next m here ne below room is are =
        let given : (list == null) ≡ false = ground (arith, ne) in
        let here' : load (write m.clients list (some (node old null))) list ≡ ok (node old null) =
          load-some _ list (node old null) ne (write_self _ _ _) in
        let more : (list == null && m.room == 0) ≡ false = ground arith in
        let fuel : length (print_all behind newline (g ∷ fs)) + 1
            ≡ suc (length (print_all behind newline (g ∷ fs))) =
          omega arith in
        rw
          (
            given,
            load-some m.clients list (node old next) ne here,
            fuel,
            client_loop-line behind newline client (length (print_all behind newline (g ∷ fs))) list
                list list (replicate 16 unset) _
                (print behind newline g ++ print_all behind newline fs) (print behind newline g)
                (print_all behind newline fs)
                (record m { clients = write m.clients list (some (node old null)) })
                (print-nonempty g (print_all behind newline fs))
                (fgets-print behind newline 511 g (print_all behind newline fs) is.clean is.line)
                (split_line-print behind newline g is.clean _ _ _ _ _ _ _) more,
            given,
            fill_client-print behind newline g _ is,
            here',
          )
          (fields_loop (length (print_all behind newline (g ∷ fs))) fs _ list list list
            (client_of g) [] refl (length-print_all (g ∷ fs)) room are
            (ne, write_self _ _ _, refl, tt) (below, tt) _ _ _ _ _ _ _)
