-- ===== src/Config/Keywords.antt =====
-- The keywords of the configuration file.
use smart_ac.Base.{List, [], ◌∷◌, Bytes, if◌then◌else◌}
use smart_ac.Cstring.{codes, equal_ignoring_case}

-- `OpCodes`
pub data OpCode : Type 0 where
  bad_option gw_ac_id gw_ac_interface daemon debug_level arp_table ac_server : OpCode
  ac_serv_hostname ac_serv_http_port ac_serv_ping_path ac_serv_result_path : OpCode
  check_interval popular_servers is_have_wifidog wifidog_path : OpCode

abbrev pub keywords : List (Bytes × OpCode)
keywords =
    (codes "Daemon", daemon)
    ∷ (codes "DebugLevel", debug_level)
    ∷ (codes "GatewayAcId", gw_ac_id)
    ∷ (codes "GatewayAcInterface", gw_ac_interface)
    ∷ (codes "ArpTablePath", arp_table)
    ∷ (codes "CheckInterval", check_interval)
    ∷ (codes "SmartAcServer", ac_server)
    ∷ (codes "Hostname", ac_serv_hostname)
    ∷ (codes "PopularServers", popular_servers)
    ∷ (codes "HttpPort", ac_serv_http_port)
    ∷ (codes "PingPath", ac_serv_ping_path)
    ∷ (codes "ResultPath", ac_serv_result_path)
    ∷ (codes "IsHaveWifidog", is_have_wifidog)
    ∷ (codes "WifidogPath", wifidog_path)
    ∷ []

-- The loop over `keywords`.
unfoldable pub find_keyword : List (Bytes × OpCode) → Bytes → OpCode
find_keyword [] cp = bad_option
find_keyword ((name, opcode) ∷ ks) cp =
    if equal_ignoring_case cp name then opcode else find_keyword ks cp

unfoldable pub config_parse_token : Bytes → OpCode
unfolding find_keyword
config_parse_token = find_keyword keywords
