-- ===== src/Config/Read/Grown.antt =====
-- What the lines of a configuration file may change in the state.
use smart_ac.Base.{◌≡◌, refl, ◌∙◌, false, List, [], ◌∷◌, ◌++◌, append-nil, append_assoc, Bytes}
use smart_ac.Config.{AcServer, State, is_minus_one}
use smart_ac.Config.Popular.{
  split_commas, add_hostname, trim_hostname, add_popular_servers, parse_popular_servers,
}
use smart_ac.Config.Read.{set_daemon}
use smart_ac.Config.Servers.{IsServers}
use smart_ac.Cstring.Number.{ℤ}
use smart_ac.Store.{Cells}

-- What reading a part of the file may have done to the state: servers came behind those of `cs`.
pub record Grown (s : State) (cs : Cells AcServer) (s' : State) : Type 0 where
  pub new : Cells AcServer
  pub servers : IsServers s' (cs ++ new)
  pub daemon : s'.config.daemon ≡ s.config.daemon
  pub debugconf : s'.debugconf ≡ s.debugconf
  pub mac : s'.config.gw_ac_mac_address ≡ s.config.gw_ac_mac_address

pub unchanged : (s : State) (cs : Cells AcServer) → IsServers s cs → Grown s cs s
unchanged s cs is = record {
  new = [];
  servers = rw append-nil is;
  daemon = refl;
  debugconf = refl;
  mac = refl;
}

pub then :
    (s t u : State) (cs : Cells AcServer) (g : Grown s cs t)
    → Grown t (cs ++ g.new) u
    → Grown s cs u
then s t u cs g h = record {
  new = g.new ++ h.new;
  servers = rw (← append_assoc) h.servers;
  daemon = h.daemon ∙ g.daemon;
  debugconf = h.debugconf ∙ g.debugconf;
  mac = h.mac ∙ g.mac;
}

-- The server list, `daemon`, the log's configuration and the hardware address are the same in both states.
pub record Untouched (s t : State) : Type 0 where
  pub head : t.config.ac_servers ≡ s.config.ac_servers
  pub servers : t.servers ≡ s.servers
  pub brk : t.brk ≡ s.brk
  pub daemon : t.config.daemon ≡ s.config.daemon
  pub debugconf : t.debugconf ≡ s.debugconf
  pub mac : t.config.gw_ac_mac_address ≡ s.config.gw_ac_mac_address

pub Grown_of_untouched :
    (s t : State) (cs : Cells AcServer) → Untouched s t → IsServers s cs → Grown s cs t
Grown_of_untouched s t cs u is = record {
  new = [];
  servers = rw append-nil (record {
    head = u.head ∙ is.head;
    chain = rw u.servers is.chain;
    below = rw u.brk is.below;
    counted = rw u.brk is.counted;
  });
  daemon = u.daemon;
  debugconf = u.debugconf;
  mac = u.mac;
}

pub here : (s : State) → Untouched s s
here s = record {
  head = refl;
  servers = refl;
  brk = refl;
  daemon = refl;
  debugconf = refl;
  mac = refl;
}

pub set_daemon-Untouched :
    (value : ℤ) (s : State)
    → is_minus_one s.config.daemon ≡ false
    → Untouched s (set_daemon value s)
unfolding set_daemon
set_daemon-Untouched value s set = rw set (here s)

add_hostname-Untouched : (name : Bytes) (s : State) → Untouched s (add_hostname name s)
unfolding add_hostname
add_hostname-Untouched [] s = here s
add_hostname-Untouched (c ∷ name) s = record {
  head = refl;
  servers = refl;
  brk = refl;
  daemon = refl;
  debugconf = refl;
  mac = refl;
}

add_popular_servers-Untouched :
    (ps : List Bytes) (s : State) → Untouched s (add_popular_servers ps s)
unfolding add_popular_servers
add_popular_servers-Untouched [] s = here s
add_popular_servers-Untouched (p ∷ ps) s =
    let one = add_hostname-Untouched (trim_hostname p) s in
    let more = add_popular_servers-Untouched ps (add_hostname (trim_hostname p) s) in
    record {
      head = more.head ∙ one.head;
      servers = more.servers ∙ one.servers;
      brk = more.brk ∙ one.brk;
      daemon = more.daemon ∙ one.daemon;
      debugconf = more.debugconf ∙ one.debugconf;
      mac = more.mac ∙ one.mac;
    }

pub parse_popular_servers-Untouched :
    (ptr : Bytes) (s : State) → Untouched s (parse_popular_servers ptr s)
unfolding parse_popular_servers
parse_popular_servers-Untouched ptr s =
    add_popular_servers-Untouched ((split_commas ptr).0 ∷ (split_commas ptr).1) s
