-- ===== src/Tests/Collected.antt =====
-- The collection of the data of a ping on a host with one client and its traffic.
use smart_ac.Base.{
  ◌≡◌, refl, Bool, true, false, Option, none, some, [], Bytes, if◌then◌else◌, arith,
}
use smart_ac.Clients.{
  Lists, find_node, free_nodes, destory_client_list, destory_traffic_list, copy_traffic, merge_loop,
  get_traffic_to_client,
}
use smart_ac.Clients.Fields.{
  set_slot, get_slot, member, is_delimiter, strsep, cut_line, split_loop, split_line, slot_text,
  seg_text, store_field,
}
use smart_ac.Clients.Files.{
  fill_client, fill_traffic, next_client, put_client, client_loop, init_client_list, next_traffic,
  put_traffic, traffic_loop, init_traffic_list,
}
use smart_ac.Config.Line.{fgets}
use smart_ac.Store.{load, write}
use smart_ac.Clients.Json.{
  Host, read_device, file_length, device_of_length, device_of_size, get_device_info_json,
  dog_status, get_dog_json_info, client_object, objects_loop, get_client_list_json,
}
use smart_ac.Clients.Json.Report.{
  update_ac_information, check_answer, number_ends, digits_end, build_ping_json_data, add_device,
  add_clients, add_dog,
}
use smart_ac.Cstring.{codes, equal, has_nul, until_nul}
use smart_ac.Cstring.Number.{
  atoll, print_int, print, print_onto, skip_spaces, atoi, sscanf_int, read_digits, is_digit,
  is_space, to_int,
}
use smart_ac.Outcome.{Outcome, ok, exits, fault, Whenever, Returns}
use smart_ac.Ping.{
  Unfilled, collect, read_clients, read_traffics, report, dhcp_leases_file, traffic_file,
}
use smart_ac.Ping.Collected.{Collected, collect-Collected}
use smart_ac.Ping.Leaked.{Leaked, collect-Leaked}
use smart_ac.Tests.Clients.{ann, used}
use smart_ac.Tests.Config.{blank}

-- Lines of a lease and of the traffic of a client.
abbrev files : Bytes → Option Bytes
files path =
    if equal path dhcp_leases_file
    then some (codes "1 aa:bb 10.0.0.2 ann *\n")
    else if equal path traffic_file
    then some (codes "10.0.0.2 1 2 3 4\n")
    else some (codes "\"d\":{}")

abbrev one_client : Host
one_client = record { stat = λ _. some 6; open_file = files; run = λ _. some (codes "0\n") }

abbrev no_leases : Host
no_leases = record one_client {
  open_file = λ path. if equal path dhcp_leases_file then none else files path;
}

abbrev unfilled : Unfilled
unfilled = record { client = ann; traffic = used; client_next = 77; traffic_next = 78 }

abbrev no_lists : Lists
no_lists = record { clients = λ _. none; traffics = λ _. none; brk = 1; room = 9 }

collect-Collected_example :
    Whenever (Collected no_lists) (collect [] unfilled one_client blank.config no_lists)
collect-Collected_example =
    collect-Collected [] unfilled one_client blank.config no_lists (λ e. ground (arith, e))
      (λ a le. refl) (λ a le. refl)

answered : update_ac_information no_leases (codes "traffic_update") ≡ ok true
unfolding update_ac_information check_answer number_ends digits_end skip_spaces atoi sscanf_int
    read_digits is_digit is_space to_int
answered = refl

unopened : no_leases.open_file dhcp_leases_file ≡ none
unfolding equal
unopened = refl

collect-Leaked_example :
    Returns (Leaked no_lists) (collect [] unfilled no_leases blank.config no_lists)
collect-Leaked_example =
    collect-Leaked [] unfilled no_leases blank.config no_lists true answered (ground arith) unopened

-- The data of this host is collected, and a text comes of it.
has_text : Outcome (Option Bytes × Lists) → Bool
has_text (ok (some text, m)) = true
has_text (ok (none, m)) = false
has_text (exits s) = false
has_text fault = false

collect_lem : has_text (collect [] unfilled one_client blank.config no_lists) ≡ true
unfolding has_text collect read_clients read_traffics report init_client_list client_loop
    next_client put_client fill_client init_traffic_list traffic_loop next_traffic put_traffic
    fill_traffic split_line split_loop set_slot get_slot strsep is_delimiter member cut_line
    seg_text slot_text store_field fgets load write equal get_traffic_to_client merge_loop
    copy_traffic find_node free_nodes destory_client_list destory_traffic_list build_ping_json_data
    add_device add_clients add_dog get_device_info_json device_of_size device_of_length file_length
    read_device get_client_list_json objects_loop client_object get_dog_json_info dog_status
    update_ac_information check_answer number_ends digits_end skip_spaces atoi atoll sscanf_int
    read_digits is_digit is_space to_int print_int print print_onto has_nul until_nul
collect_lem = refl
