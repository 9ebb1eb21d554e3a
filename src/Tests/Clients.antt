-- ===== src/Tests/Clients.antt =====
-- The client lists, the files they are read from and the JSON text, on concrete data.
use smart_ac.Base.{◌≡◌, ◌==◌, if◌then◌else◌, refl, false, Option, none, some, [], ◌∷◌, arith}
use smart_ac.Clients.{Client, Traffic, Lists, get_traffic_to_client}
use smart_ac.Clients.Fields.{
  split_line, split_loop, set_slot, get_slot, strsep, cut_line, is_delimiter, member, seg_text,
  slot_text, store_field,
}
use smart_ac.Clients.Fields.Split.{Fields}
use smart_ac.Clients.Files.{
  init_traffic_list, traffic_loop, next_traffic, put_traffic, fill_traffic, init_client_list,
}
use smart_ac.Clients.Files.Leases.{IsLease, Filled}
use smart_ac.Clients.Files.Leases.Read.{init_client_list-leases}
use smart_ac.Clients.Json.{Host, get_client_list_json, append, put_text}
use smart_ac.Clients.Json.List.{client_list_text, object, get_client_list_json-text}
use smart_ac.Clients.Json.Report.{build_ping_json_data}
use smart_ac.Clients.Json.Report.Text.{ping_text, build_ping_json_data-text}
use smart_ac.Clients.Merge.{Merged, get_traffic_to_client-Merged}
use smart_ac.Config.{Config}
use smart_ac.Config.Line.{fgets}
use smart_ac.Cstring.{codes, has_nul, until_nul}
use smart_ac.Cstring.Number.{
  ℤ, pos, atoi, atoll, print_int, print, print_onto, sscanf_int, skip_spaces, read_digits, is_digit,
  is_space, to_int,
}
use smart_ac.Outcome.{Outcome, ok, ◌>>=◌, Returns}
use smart_ac.Store.{Cells, Linked, node, load, write}
use smart_ac.Tests.Config.{blank}

abbrev pub ann : Client
ann = record {
  c_ip = codes "10.0.0.2";
  c_mac = codes "aa:bb";
  c_hostname = codes "ann";
  incoming = pos 0;
  outgoing = pos 0;
  go_speed = pos 0;
  come_speed = pos 0;
}

abbrev bob : Client
bob = record ann { c_ip = codes "10.0.0.3"; c_mac = codes "cc:dd"; c_hostname = codes "bob" }

abbrev pub used : Traffic
used = record {
  traffic_ip = codes "10.0.0.3";
  incoming = pos 5;
  outgoing = pos 6;
  go_speed = pos 7;
  come_speed = pos 8;
}

abbrev two_clients : Cells Client
two_clients = (1, ann) ∷ (2, bob) ∷ []

abbrev one_traffic : Cells Traffic
one_traffic = (3, used) ∷ []

abbrev heap : Lists
heap = record {
  clients = λ p. if p == 1 then some (node ann 2) else if p == 2 then some (node bob 0) else none;
  traffics = λ p. if p == 3 then some (node used 0) else none;
  brk = 4;
  room = 9;
}

two_clients-Linked : Linked heap.clients 0 two_clients
two_clients-Linked = (ground arith, refl, refl, (ground arith, refl, refl, tt))

get_traffic_to_client-Merged_example :
    Returns (Merged one_traffic two_clients heap) (get_traffic_to_client 1 3 heap)
get_traffic_to_client-Merged_example =
    get_traffic_to_client-Merged two_clients one_traffic heap (ground arith) (ground arith)
      two_clients-Linked (ground arith, refl, refl, tt)

get_client_list_json-text_example :
    get_client_list_json (some 10240) 1 heap
    ≡ (append 10240 [] (client_list_text ann (bob ∷ [])) >>= put_text 10240)
get_client_list_json-text_example =
    get_client_list_json-text 10240 heap 1 ann ((2, bob) ∷ []) (ground arith) two_clients-Linked

-- A line of the file of the DHCP server.
abbrev lease : Fields
lease = record {
  f0 = codes "1456";
  f1 = codes "aa:bb";
  f2 = codes "10.0.0.2";
  f3 = codes "ann";
  f4 = codes "*";
}

abbrev other_lease : Fields
other_lease = record lease { f1 = codes "cc:dd"; f2 = codes "10.0.0.3"; f3 = codes "bob" }

abbrev one_node : Lists
one_node = record heap { clients = λ p. if p == 1 then some (node bob 2) else none }

newline : is_delimiter [] b'\n' ≡ false
unfolding is_delimiter member
newline = refl

lease-IsLease : IsLease [] newline lease
unfolding is_delimiter member
lease-IsLease = record {
  clean = (refl, refl, refl, refl, refl);
  mac = ground arith;
  ip = ground arith;
  hostname = ground arith;
  line = ground arith;
}

other_lease-IsLease : IsLease [] newline other_lease
unfolding is_delimiter member
other_lease-IsLease = record {
  clean = (refl, refl, refl, refl, refl);
  mac = ground arith;
  ip = ground arith;
  hostname = ground arith;
  line = ground arith;
}

init_client_list-leases_example : Returns (Filled [] newline 1 ann [] (other_lease ∷ [])) (
    init_client_list [] bob 1
      (some (codes "1456 aa:bb 10.0.0.2 ann *\n1456 cc:dd 10.0.0.3 bob *\n"))
      one_node)
init_client_list-leases_example =
    init_client_list-leases [] newline bob lease (other_lease ∷ []) 1 bob 2 one_node refl
      (ground arith) (ground arith) (ground arith) lease-IsLease (other_lease-IsLease, tt)

-- A host with a device file and a running wifidog.
abbrev host : Host
host = record {
  stat = λ _. some 7;
  open_file = λ _. some (codes "\"d\":{}");
  run = λ _. some (codes "{}");
}

abbrev with_wifidog : Config
with_wifidog = record blank.config { is_have_wifidog = pos 1; wifidog_path = codes "/usr/bin/" }

build_ping_json_data-text_example :
    build_ping_json_data host with_wifidog (some 10240) (codes "ab") 1 heap
    ≡ ok (
        some (
          ping_text host with_wifidog
            (codes "ab")
            (codes "\"d\":{}")
            (client_list_text ann (bob ∷ []))))
unfolding has_nul until_nul client_list_text object print_int print print_onto
build_ping_json_data-text_example =
    build_ping_json_data-text host with_wifidog 10240 7 (codes "ab") (codes "\"d\":{}") heap 1 ann
      ((2, bob) ∷ []) (ground arith) refl refl (ground arith) (ground arith) refl (ground arith)
      two_clients-Linked (ground arith) (ground arith)

-- The traffic script's line is read into the given node.
read_traffic : Outcome (Option (ℤ × ℤ × ℤ × ℤ))
unfolding init_traffic_list traffic_loop next_traffic put_traffic fill_traffic split_line split_loop
    set_slot get_slot strsep cut_line is_delimiter member seg_text slot_text store_field fgets atoi
    atoll load write until_nul sscanf_int skip_spaces read_digits is_digit is_space to_int
read_traffic = do
  (r, m) ← init_traffic_list [] used 3 (some (codes "10.0.0.9 1 22 333 4444\n")) heap
  n ← load m.traffics 3
  let t = n.value
  ok (some (t.incoming, t.outgoing, t.come_speed, t.go_speed))

read_traffic_lem : read_traffic ≡ ok (some (pos 1, pos 22, pos 333, pos 4444))
unfolding read_traffic
read_traffic_lem = refl
