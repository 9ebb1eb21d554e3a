-- ===== src/Tests/Interfaces.antt =====
-- Interfaces and processes on concrete answers of the kernel.
use smart_ac.Base.{
  ℕ, zero, suc, ◌+◌, ◌<◌, true, ◌≡◌, refl, Option, none, some, List, [], ◌∷◌, ◌++◌, Bytes,
  replicate, arith,
}
use smart_ac.Cstring.{codes, equal}
use smart_ac.Cstring.Number.{pos, is_space}
use smart_ac.Interfaces.{Ioctl, Process, get_iface_mac, execute}
use smart_ac.Interfaces.Executed.{exited, execute-reported}
use smart_ac.Interfaces.Mac.{IsMac, six_bytes, get_iface_mac-IsMac}
use smart_ac.Interfaces.Route.{find_default, get_ext_iface}
use smart_ac.Interfaces.Route.Columns.{Column, IsColumn, AreColumns}
use smart_ac.Interfaces.Route.Detected.{HasNoRoute, get_ext_iface-Decides, get_ext_iface-waits}
use smart_ac.Interfaces.Route.Scanned.{Fits, find_default-Fits}
use smart_ac.Interfaces.Route.Table.{
  Row, IsRow, AreRows, print_rows, first_default, find_default-rows,
}
use smart_ac.Outcome.{ok, Returns}
use smart_ac.Tests.Safe.{no_descriptors}

abbrev column : ℕ → Bytes → Column
column c w = record { head = c; tail = w; gap = b'\t'; gaps = [] }

abbrev zeros : List Column
zeros = replicate 9 (column b'0' [])

abbrev net_row : Row
net_row = record {
  device = column b'b' (codes "r-lan");
  destination = column b'0' (codes "001A8C0");
  columns = zeros;
}

abbrev default_row : Row
default_row = record {
  device = column b'e' (codes "th0");
  destination = column b'0' (codes "0000000");
  columns = zeros;
}

replicate-AreColumns : (n : ℕ) (c : Column) → IsColumn c → AreColumns (replicate n c)
replicate-AreColumns zero c is = tt
replicate-AreColumns (suc n) c is = (is, replicate-AreColumns n c is)

zeros-AreColumns : AreColumns zeros
unfolding is_space
zeros-AreColumns =
    replicate-AreColumns 9 (column b'0' []) (record { visible = (refl, tt); blank = (refl, tt) })

net_row-IsRow : IsRow net_row
unfolding is_space
net_row-IsRow = record {
  device_column = record {
    visible = (refl, (refl, (refl, (refl, (refl, (refl, tt))))));
    blank = (refl, tt);
  };
  destination_column = record {
    visible = (refl, (refl, (refl, (refl, (refl, (refl, (refl, (refl, tt))))))));
    blank = (refl, tt);
  };
  other_columns = zeros-AreColumns;
  nine = refl;
  device_fits = ground arith;
  destination_fits = ground arith;
}

default_row-IsRow : IsRow default_row
unfolding is_space
default_row-IsRow = record {
  device_column = record { visible = (refl, (refl, (refl, (refl, tt)))); blank = (refl, tt) };
  destination_column = record {
    visible = (refl, (refl, (refl, (refl, (refl, (refl, (refl, (refl, tt))))))));
    blank = (refl, tt);
  };
  other_columns = zeros-AreColumns;
  nine = refl;
  device_fits = ground arith;
  destination_fits = ground arith;
}

abbrev pub rows : List Row
rows = net_row ∷ default_row ∷ []

rows-AreRows : AreRows rows
rows-AreRows = (net_row-IsRow, (default_row-IsRow, tt))

rows_default : first_default rows ≡ some (codes "eth0")
unfolding equal
rows_default = refl

find_default-rows_example : find_default (print_rows rows) ≡ ok (first_default rows)
find_default-rows_example = find_default-rows rows rows-AreRows

find_default-Fits_example : Returns Fits (find_default (print_rows rows))
find_default-Fits_example = find_default-Fits (print_rows rows)

-- At the first try there is no default route, and then there is one.
abbrev without_default : Bytes
without_default = print_rows (net_row ∷ [])

abbrev tables : ℕ → Option Bytes
tables i = elim i [
  | zero ↦ none
  | suc j ↦ elim j [ zero ↦ some without_default | suc _ ↦ some (print_rows rows) ]
]

no_default : find_default without_default ≡ ok none
unfolding equal
no_default = find_default-rows (net_row ∷ []) (net_row-IsRow, tt)

pub found_default : find_default (print_rows rows) ≡ ok (some (codes "eth0"))
unfolding equal
found_default = find_default-rows rows rows-AreRows

first_try : (k : ℕ) → k < 1 → HasNoRoute (tables (1 + k))
first_try zero h = no_default
first_try (suc k) h = absurd (omega arith)

get_ext_iface-Decides_example : get_ext_iface 5 tables ≡ some (ok (some (codes "eth0")))
get_ext_iface-Decides_example =
    get_ext_iface-Decides tables 1 5 (some (codes "eth0")) first_try found_default (ground arith)

get_ext_iface-waits_example : get_ext_iface 1000 (λ i. some without_default) ≡ none
get_ext_iface-waits_example = get_ext_iface-waits (λ i. some without_default) 1000 (λ k. no_default)

-- The hardware address of every interface, in `sa_data`.
abbrev pub hardware : Ioctl
hardware name = some (six_bytes 0 27 33 68 85 255 ++ replicate 8 0)

get_iface_mac-IsMac_example :
    IsMac (six_bytes 0 27 33 68 85 255) (get_iface_mac true true hardware (codes "br-lan"))
get_iface_mac-IsMac_example =
    get_iface_mac-IsMac hardware (codes "br-lan") 0 27 33 68 85 255 (replicate 8 0) refl
      (ground arith) (ground arith) (ground arith) (ground arith) (ground arith) (ground arith)

-- A process that exits with 2.
abbrev pub exits_two : Bytes → Process
exits_two cmd_line = record { forked = pos 30; waited = pos 30; status = 512 }

execute-reported_example :
    execute exits_two (codes "ls") no_descriptors ≡ ok (pos 2, no_descriptors)
execute-reported_example =
    execute-reported exits_two (codes "ls") no_descriptors (exited 2) (ground arith) refl refl refl
