-- ===== src/Clients/Files/Traffics/Read.antt =====
-- `traffic_loop` on the lines of a file of measurements.
use mathlib.Core.Path.{subst}
use smart_ac.Base.{
  ℕ, zero, suc, ◌+◌, ◌≤◌, ◌<◌, ◌≡◌, ◌≢◌, refl, ap, sym, false, ◌&&◌, some, List, [], ◌∷◌, ◌++◌,
  Bytes, ◌==◌, length, arith, append_assoc, append-nil, length-append, replicate,
}
use smart_ac.Clients.{Traffic, Lists}
use smart_ac.Clients.Fields.{Slot, unset, is_delimiter}
use smart_ac.Clients.Fields.Split.{print, split_line-print, fgets-print}
use smart_ac.Clients.Files.{next_traffic, put_traffic, traffic_loop, init_traffic_list}
use smart_ac.Cstring.Number.{ℤ}
use smart_ac.Outcome.{ok, Returns, Returns-mono}
use smart_ac.Store.{Ptr, null, node, write, load, Cells, Linked}
use smart_ac.Store.Linked.{Below, last_of, last_of-snoc, write_self, load-some}
use smart_ac.Clients.Files.Traffics.{
  Measurement, fields_of, traffic_of, IsMeasurement, print_all, AreMeasurements, Listed,
  fill_traffic-print, traffic_loop-line,
}
use smart_ac.Clients.Files.Traffics.Append.{
  with_measured, next_traffic-eq, put_traffic-eq, with_measured-Linked, with_measured-room,
  with_measured-Below,
}

module _ (behind : Bytes) (newline : is_delimiter behind b'\n' ≡ false) where
  module _ (traffic : Traffic) where
    one_more :
        (a : Ptr) (v : Traffic) (cs : Cells Traffic) (p : Ptr) (g : Measurement)
        (fs : List Measurement) (done : ℤ × Lists)
        → Listed behind newline a v (cs ++ (p, traffic_of g) ∷ []) fs done
        → Listed behind newline a v cs (g ∷ fs) done
    one_more a v cs p g fs (r, m') (e, (new, l, same)) = (
      e,
      (
        (p, traffic_of g) ∷ new,
        subst (λ ds. Linked m'.traffics null ((a, v) ∷ ds))
            (append_assoc cs ((p, traffic_of g) ∷ []) new) l,
        ap (traffic_of g ∷◌) same,
      ),
    )

    print-nonempty :
        (x : Measurement) (s : Bytes) → 0 < length (print behind newline (fields_of x) ++ s)
    print-nonempty x s =
        let f = fields_of x in
        omega (
          arith,
          length-append (print behind newline f) s,
          length-append f.f0
              (b' ' ∷ (f.f1 ++ b' ' ∷ (f.f2 ++ b' ' ∷ (f.f3 ++ b' ' ∷ (f.f4 ++ b'\n' ∷ []))))),
        )

    length-print_all : (fs : List Measurement) → length fs ≤ length (print_all behind newline fs)
    length-print_all [] = omega arith
    length-print_all (g ∷ fs) = omega (
      arith,
      length-print_all fs,
      print-nonempty g [],
      length-append (print behind newline (fields_of g)) [],
      length-append (print behind newline (fields_of g)) (print_all behind newline fs),
    )

    fields_loop :
        (k : ℕ) (fs : List Measurement) (m : Lists) (list a pre : Ptr) (v : Traffic)
        (cs : Cells Traffic)
        → pre ≡ (last_of a v cs).0
        → length fs < k
        → length fs ≤ m.room
        → AreMeasurements behind newline fs
        → Linked m.traffics null ((a, v) ∷ cs)
        → Below m.brk ((a, v) ∷ cs)
        → (x0 x1 x2 x3 x4 x5 : Slot) (seg : List Slot)
        → Returns (Listed behind newline a v cs fs) (
            traffic_loop behind traffic k list null pre
              (x0 ∷ x1 ∷ x2 ∷ x3 ∷ x4 ∷ x5 ∷ seg)
              (print_all behind newline fs)
              m)
    unfolding traffic_loop
    fields_loop zero fs m list a pre v cs e f room is l b x0 x1 x2 x3 x4 x5 seg =
        absurd (omega arith)
    fields_loop (suc k) [] m list a pre v cs e f room is l b x0 x1 x2 x3 x4 x5 seg =
        (refl, ([], rw (append-nil cs) l, refl))
    fields_loop (suc k) (g ∷ fs) m list a pre v cs e f room (is, are) l b x0 x1 x2 x3 x4 x5 seg =
        let more : (null == null && m.room == 0) ≡ false = ground arith in
        rw
          (
            traffic_loop-line behind newline traffic k list null pre
                (x0 ∷ x1 ∷ x2 ∷ x3 ∷ x4 ∷ x5 ∷ seg) _
                (print behind newline (fields_of g) ++ print_all behind newline fs)
                (print behind newline (fields_of g)) (print_all behind newline fs) m
                (print-nonempty g (print_all behind newline fs))
                (fgets-print behind newline 1023 (fields_of g) (print_all behind newline fs)
                  is.clean is.line)
                (split_line-print behind newline (fields_of g) is.clean x0 x1 x2 x3 x4 x5 seg) more,
            e,
            next_traffic-eq behind traffic m a v cs (traffic_of g) l b,
            put_traffic-eq behind traffic m a v cs (traffic_of g) l b _ _
                (fill_traffic-print behind newline g seg traffic is),
          )
          (Returns-mono (Listed behind newline a v (cs ++ (m.brk, traffic_of g) ∷ []) fs)
            (Listed behind newline a v cs (g ∷ fs)) _
            (fields_loop k fs (with_measured behind traffic m a v cs (traffic_of g) l b) list a
              m.brk v (cs ++ (m.brk, traffic_of g) ∷ [])
              (sym (ap (λ x. x.0) (last_of-snoc a v cs m.brk (traffic_of g)))) (omega arith)
              (omega (arith, with_measured-room behind traffic m a v cs (traffic_of g) l b)) are
              (with_measured-Linked behind traffic m a v cs (traffic_of g) l b)
              (with_measured-Below behind traffic m a v cs (traffic_of g) l b) _ _ _ _ _ _ _)
            (λ done filled. one_more a v cs m.brk g fs done filled))

    -- A file of measurements, of which there is at least one, is read in full: where each address fits
    -- into its array and has no delimiter, newline or NUL, no digit or newline is a delimiter, the
    -- numbers fit into their types and the lines into their array, the given node exists and the
    -- allocations succeed, `init_traffic_list` returns 0 and the list stands for the measurements, in
    -- their order, with the numbers that were printed, and with the given node as its first.
    pub init_traffic_list-measurements :
        (g : Measurement) (fs : List Measurement) (list : Ptr) (old : Traffic) (next : Ptr)
        (m : Lists)
        → m.traffics list ≡ some (node old next)
        → list ≢ null
        → list < m.brk
        → length fs ≤ m.room
        → IsMeasurement behind newline g
        → AreMeasurements behind newline fs
        → Returns
            (Listed behind newline list (traffic_of g) [] fs)
            (init_traffic_list behind traffic list (some (print_all behind newline (g ∷ fs))) m)
    unfolding init_traffic_list next_traffic put_traffic
    init_traffic_list-measurements g fs list old next m here ne below room is are =
        let given : (list == null) ≡ false = ground (arith, ne) in
        let here' : load (write m.traffics list (some (node old null))) list ≡ ok (node old null) =
          load-some _ list (node old null) ne (write_self _ _ _) in
        let more : (list == null && m.room == 0) ≡ false = ground arith in
        let fuel : length (print_all behind newline (g ∷ fs)) + 1
            ≡ suc (length (print_all behind newline (g ∷ fs))) =
          omega arith in
        rw
          (
            given,
            load-some m.traffics list (node old next) ne here,
            fuel,
            traffic_loop-line behind newline traffic (length (print_all behind newline (g ∷ fs)))
                list list list (replicate 16 unset) _
                (print behind newline (fields_of g) ++ print_all behind newline fs)
                (print behind newline (fields_of g)) (print_all behind newline fs)
                (record m { traffics = write m.traffics list (some (node old null)) })
                (print-nonempty g (print_all behind newline fs))
                (fgets-print behind newline 1023 (fields_of g) (print_all behind newline fs)
                  is.clean is.line)
                (split_line-print behind newline (fields_of g) is.clean _ _ _ _ _ _ _) more,
            given,
            here',
            fill_traffic-print behind newline g _ old is,
          )
          (fields_loop (length (print_all behind newline (g ∷ fs))) fs _ list list list
            (traffic_of g) [] refl (length-print_all (g ∷ fs)) room are
            (ne, write_self _ _ _, refl, tt) (below, tt) _ _ _ _ _ _ _)
