-- ===== src/Clients/Files/Traffics.antt =====
-- `init_traffic_list` on a file of measurements: the measurements, their lines, and what is kept of them.
pub mod Append
pub mod Read
use smart_ac.Base.{
  ℕ, zero, suc, ◌+◌, ◌-◌, ◌<◌, ◌≡◌, ◌^◌, refl, sym, ap, ◌∙◌, true, false, ◌&&◌, some, List, [], ◌∷◌,
  ◌++◌, Bytes, ◌==◌, if◌then◌else◌, length, map, arith, lt→ltb, append-nil,
}
use smart_ac.Clients.{Traffic, Lists}
use smart_ac.Clients.Fields.{
  Slot, is_delimiter, split_line, cut_line, seg_text, get_slot, store_field,
}
use smart_ac.Clients.Fields.Last.{slot_text-last}
use smart_ac.Clients.Fields.Split
use smart_ac.Clients.Fields.Split.{Fields, Clean, body, slots, slot_text-print}
use smart_ac.Clients.Files.{fill_traffic, next_traffic, put_traffic, traffic_loop}
use smart_ac.Config.Line.{fgets}
use smart_ac.Cstring.Number.{ℤ, pos, print, atoi, atoll, starts_with_digit, is_digit}
use smart_ac.Cstring.Number.Printed.{atoll-print, atoi-print}
use smart_ac.Outcome.{ok, ◌>>=◌}
use smart_ac.Store.{Ptr, null, Cells, Linked}

-- What the script measured of an address: bytes that came in and went out, and both speeds.
pub record Measurement : Type 0 where
  pub address : Bytes
  pub bytes_in : ℕ
  pub bytes_out : ℕ
  pub speed_in : ℕ
  pub speed_out : ℕ

abbrev pub fields_of : Measurement → Fields
fields_of x = record {
  f0 = x.address;
  f1 = print x.bytes_in;
  f2 = print x.bytes_out;
  f3 = print x.speed_in;
  f4 = print x.speed_out;
}

abbrev pub traffic_of : Measurement → Traffic
traffic_of x = record {
  traffic_ip = x.address;
  incoming = pos x.bytes_in;
  outgoing = pos x.bytes_out;
  go_speed = pos x.speed_out;
  come_speed = pos x.speed_in;
}

module _ (behind : Bytes) (newline : is_delimiter behind b'\n' ≡ false) where
  -- A measurement whose numbers fit into their types, and its line into the line's array.
  pub record IsMeasurement (x : Measurement) : Type 0 where
    pub clean : Clean behind newline (fields_of x)
    pub ip : length x.address < 16
    pub bytes_in : x.bytes_in < 2 ^ 63
    pub bytes_out : x.bytes_out < 2 ^ 63
    pub speed_in : x.speed_in < 2 ^ 31
    pub speed_out : x.speed_out < 2 ^ 31
    pub line : length (body behind newline (fields_of x)) < 1023

  atoll-alone : (n : ℕ) → n < 2 ^ 63 → atoll (print n) ≡ pos n
  unfolding starts_with_digit
  atoll-alone n h = ap atoll (sym (append-nil (print n))) ∙ atoll-print n [] refl h

  atoi-alone : (n : ℕ) → n < 2 ^ 31 → atoi (print n) ≡ pos n
  unfolding starts_with_digit
  atoi-alone n h = ap atoi (sym (append-nil (print n))) ∙ atoi-print n [] refl h

  atoi-line : (n : ℕ) → n < 2 ^ 31 → atoi (print n ++ b'\n' ∷ []) ≡ pos n
  unfolding starts_with_digit is_digit
  atoi-line n h = atoi-print n (b'\n' ∷ []) refl h

  pub fill_traffic-print :
      (x : Measurement) (seg : List Slot) (old : Traffic)
      → IsMeasurement x
      → let line = Split.print behind newline (fields_of x) in
        fill_traffic (cut_line behind line) (slots behind newline (fields_of x) seg) old
        ≡ ok (traffic_of x)
  unfolding fill_traffic seg_text get_slot store_field
  fill_traffic-print x seg old is =
      let (e0, e1, e2, e3) = slot_text-print behind newline (fields_of x) is.clean in
      let e4 = slot_text-last behind newline (fields_of x) is.clean in
      rw
        (
          e0,
          lt→ltb _ _ is.ip,
          e1,
          e2,
          e3,
          e4,
          atoll-alone x.bytes_in is.bytes_in,
          atoll-alone x.bytes_out is.bytes_out,
          atoi-alone x.speed_in is.speed_in,
          atoi-line x.speed_out is.speed_out,
        )
        refl

  abbrev pub print_all : List Measurement → Bytes
  print_all [] = []
  print_all (x ∷ xs) = Split.print behind newline (fields_of x) ++ print_all xs

  abbrev pub AreMeasurements : List Measurement → Type 0
  AreMeasurements [] = Unit
  AreMeasurements (x ∷ xs) = IsMeasurement x × AreMeasurements xs

  -- The list has become longer by the measurements, in their order.
  abbrev pub Listed : Ptr → Traffic → Cells Traffic → List Measurement → (ℤ × Lists) → Type 0
  Listed a v cs xs (r, m') =
      (r ≡ pos 0)
      × ((new : Cells Traffic) × Linked m'.traffics null ((a, v) ∷ (cs ++ new))
          × (map (λ c. c.1) new ≡ map traffic_of xs))

  module _ (traffic : Traffic) where
    pub traffic_loop-line :
        (k : ℕ) (list head pre : Ptr) (seg seg' : List Slot) (s line rest : Bytes) (m : Lists)
        → 0 < length s
        → fgets 1023 s ≡ (line, rest)
        → split_line behind line seg ≡ ok seg'
        → (head == null && m.room == 0) ≡ false
        → traffic_loop behind traffic (suc k) list head pre seg s m ≡ (do
          (head, pre, m) ← next_traffic behind traffic head pre m
          m ← put_traffic behind traffic line seg' head m
          traffic_loop behind traffic k list null pre seg' rest m)
    unfolding traffic_loop
    traffic_loop-line k list head pre seg seg' [] line rest m lt e e' room = absurd (omega arith)
    traffic_loop-line k list head pre seg seg' (c ∷ s) line rest m lt e e' room =
        rw (e, e', room) refl
