-- ===== src/Tests/Traffics.antt =====
-- A file of two measurements.
use smart_ac.Base.{◌≡◌, refl, false, none, some, [], ◌∷◌, ◌==◌, if◌then◌else◌, arith}
use smart_ac.Clients.{Lists}
use smart_ac.Clients.Fields.{is_delimiter, member}
use smart_ac.Clients.Files.{init_traffic_list}
use smart_ac.Clients.Files.Traffics.{Measurement, traffic_of, IsMeasurement, print_all, Listed}
use smart_ac.Clients.Files.Traffics.Read.{init_traffic_list-measurements}
use smart_ac.Cstring.{codes}
use smart_ac.Cstring.Number.{print, print_onto}
use smart_ac.Outcome.{Returns}
use smart_ac.Store.{node}
use smart_ac.Tests.Clients.{used}

abbrev measured : Measurement
measured = record {
  address = codes "10.0.0.2";
  bytes_in = 5;
  bytes_out = 4096;
  speed_in = 0;
  speed_out = 12;
}

abbrev other : Measurement
other = record measured { address = codes "10.0.0.3"; bytes_in = 77 }

abbrev one_node : Lists
one_node = record {
  clients = λ p. none;
  traffics = λ p. if p == 1 then some (node used 2) else none;
  brk = 2;
  room = 3;
}

newline : is_delimiter [] b'\n' ≡ false
unfolding is_delimiter member
newline = refl

measured-IsMeasurement : IsMeasurement [] newline measured
unfolding is_delimiter member print print_onto
measured-IsMeasurement = record {
  clean = (refl, refl, refl, refl, refl);
  ip = ground arith;
  bytes_in = ground arith;
  bytes_out = ground arith;
  speed_in = ground arith;
  speed_out = ground arith;
  line = ground arith;
}

other-IsMeasurement : IsMeasurement [] newline other
unfolding is_delimiter member print print_onto
other-IsMeasurement = record {
  clean = (refl, refl, refl, refl, refl);
  ip = ground arith;
  bytes_in = ground arith;
  bytes_out = ground arith;
  speed_in = ground arith;
  speed_out = ground arith;
  line = ground arith;
}

-- What is printed of the two.
print_all_lem :
    print_all [] newline (measured ∷ other ∷ [])
    ≡ codes "10.0.0.2 5 4096 0 12\n10.0.0.3 77 4096 0 12\n"
unfolding print print_onto
print_all_lem = refl

init_traffic_list-measurements_example :
    Returns
      (Listed [] newline 1 (traffic_of measured) [] (other ∷ []))
      (init_traffic_list [] used 1 (some (print_all [] newline (measured ∷ other ∷ []))) one_node)
init_traffic_list-measurements_example =
    init_traffic_list-measurements [] newline used measured (other ∷ []) 1 used 2 one_node refl
      (ground arith) (ground arith) (ground arith) measured-IsMeasurement (other-IsMeasurement, tt)
