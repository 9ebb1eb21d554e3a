-- ===== src/Config.antt =====
-- smartac_config.c and smartac_config.h: the configuration, its defaults, the file that it is read
-- from and the list of AC servers. The server list is a chain of nodes in a heap; the list of
-- popular servers is only ever prepended to and walked, and is a plain list.
pub mod Servers
pub mod Keywords
pub mod Line
pub mod Popular
pub mod Block
pub mod Read
use smart_ac.Base.{
  ℕ, zero, suc, Bool, true, false, Option, none, some, List, [], ◌∷◌, Bytes, ltb, if◌then◌else◌,
}
use smart_ac.Cstring.{codes}
use smart_ac.Cstring.Number.{ℤ, pos, negsuc}
use smart_ac.Outcome.{Outcome, ok, exits}
use smart_ac.Store.{Ptr, null, Store, Node}

-- `struct _ac_server_t` but for its `next`; a `NULL` address is `none`.
pub record AcServer : Type 0 where
  pub hostname : Bytes
  pub ping_path : Bytes
  pub result_path : Bytes
  pub port : ℤ
  pub last_ip : Option Bytes

-- `s_config`; a `NULL` string is `none`.
pub record Config : Type 0 where
  pub config_file : Bytes
  pub ac_servers : Ptr
  pub check_interval : ℤ
  pub arp_table_path : Bytes
  pub gw_ac_id : Option Bytes
  pub gw_ac_interface : Option Bytes
  pub gw_ac_ip_address : Option Bytes
  pub gw_ac_mac_address : Option Bytes
  pub is_have_wifidog : ℤ
  pub wifidog_path : Bytes
  pub daemon : ℤ
  pub debuglevel : ℤ
  pub syslog_facility : ℕ
  pub popular_servers : List Bytes

-- `debugconf_t`
pub record DebugConf : Type 0 where
  pub debuglevel : ℤ
  pub log_stderr : Bool
  pub log_syslog : Bool
  pub syslog_facility : ℕ

-- The globals that the configuration code works on, with the heap of servers and the address that
-- the next server is allocated at.
pub record State : Type 0 where
  pub config : Config
  pub debugconf : DebugConf
  pub missing_parms : Bool
  pub servers : Store (Node AcServer)
  pub brk : Ptr

abbrev pub log_info : ℕ
log_info = 6

abbrev pub log_daemon : ℕ
log_daemon = 24

abbrev pub default_daemon : ℤ
default_daemon = pos 1

unfoldable pub config_init : State → State
config_init s = record s {
  config = record {
    config_file = codes "/etc/wifismartac.conf";
    arp_table_path = codes "/proc/net/arp";
    ac_servers = null;
    check_interval = pos 30;
    debuglevel = pos log_info;
    daemon = default_daemon;
    gw_ac_id = none;
    gw_ac_ip_address = none;
    gw_ac_mac_address = none;
    gw_ac_interface = none;
    syslog_facility = log_daemon;
    is_have_wifidog = pos 0;
    wifidog_path = codes "/usr/bin/";
    popular_servers = s.config.popular_servers;
  };
  debugconf = record {
    log_stderr = true;
    debuglevel = pos log_info;
    syslog_facility = log_daemon;
    log_syslog = false;
  };
}

-- `daemon == -1`
abbrev pub is_minus_one : ℤ → Bool
is_minus_one (negsuc n) = if ltb 0 n then false else true
is_minus_one (pos n) = false

-- `daemon > 0`
abbrev pub is_positive : ℤ → Bool
is_positive (pos n) = ltb 0 n
is_positive (negsuc n) = false

unfoldable pub config_init_override : State → State
config_init_override s =
    if is_minus_one s.config.daemon
    then record s {
      config = record s.config { daemon = default_daemon };
      debugconf = record s.debugconf {
        log_stderr = if is_positive default_daemon then false else s.debugconf.log_stderr;
      };
    }
    else s

unfoldable pub add_popular_server : Bytes → State → State
add_popular_server server s = record s {
  config = record s.config { popular_servers = server ∷ s.config.popular_servers };
}

unfoldable pub validate_popular_servers : State → State
unfolding add_popular_server
validate_popular_servers s = elim s.config.popular_servers [
  | [] ↦ add_popular_server (codes "www.hao123.com") (add_popular_server (codes "www.baidu.com") s)
  | _ ∷ _ ↦ s
]

-- `config_notnull` of the server list
unfoldable pub config_notnull : Ptr → State → State
config_notnull zero s = record s { missing_parms = true }
config_notnull (suc p) s = s

unfoldable pub config_validate : State → Outcome State
unfolding config_notnull validate_popular_servers
config_validate s =
    let s' = validate_popular_servers (config_notnull s.config.ac_servers s) in
    if s'.missing_parms then exits 255 else ok s'
