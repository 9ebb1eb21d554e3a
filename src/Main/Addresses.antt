-- ===== src/Main/Addresses.antt =====
-- The interface and its addresses, and the directory for the outputs of commands.
use smart_ac.Base.{
  ℕ, ◌≤◌, ◌≡◌, refl, ap, ◌∙◌, Bool, true, false, Option, none, some, [], ◌∷◌, Bytes, drop, length,
  length-drop, arith,
}
use smart_ac.Config.{Config}
use smart_ac.Interfaces.{
  strdup, inet_ntoa, ip_text, get_iface_ip, mac_string, mac_text, get_iface_mac,
}
use smart_ac.Interfaces.Route.{get_ext_iface}
use smart_ac.Main.{
  Machine, required, keep_or_find, find_interface, ip_of, find_ip_address, mac_of, id_or,
  mac_or_find, find_mac_address, find_settings,
}
use smart_ac.Outcome.{Outcome, ok, exits, Ends, returns, fails, Ends->>=, Ends-if, Ends-mono}
use smart_ac.Safe.{safe_strdup}

-- `ioctl` fails, or stores at least so many bytes.
abbrev pub HasBytes : ℕ → Option Bytes → Type 0
HasBytes n none = Unit
HasBytes n (some sa_data) = n ≤ length sa_data

-- The search for the external interface ends, `ioctl` stores whole addresses and the ping thread can be
-- created; everything else may fail.
pub record IsMachine (machine : Machine) : Type 0 where
  pub route : Option Bytes
  pub detects : get_ext_iface machine.tries machine.tables ≡ some (ok route)
  pub address_bytes : (name : Bytes) → HasBytes 14 (machine.address name)
  pub hardware_bytes : (name : Bytes) → HasBytes 14 (machine.hardware_address name)
  pub creates : machine.created ≡ true

abbrev Any {ℓ} : {A : Type ℓ} → A → Type 0
Any a = Unit

required-Ends : (o : Option Bytes) → Ends Any (required o)
required-Ends none = fails (omega arith)
required-Ends (some s) = returns tt

keep_or_find-Ends :
    (o : Option Bytes) (search : Outcome (Option Bytes))
    → Ends Any search
    → Ends Any (keep_or_find o search)
keep_or_find-Ends none search h = Ends->>= h (λ r _. required-Ends r)
keep_or_find-Ends (some s) search h = returns tt

strdup-Ends : (found : Bool) (s : Bytes) → Ends Any (strdup found s)
unfolding safe_strdup
strdup-Ends true s = returns tt
strdup-Ends false s = fails (omega arith)

inet_ntoa-Ends : (s : Bytes) → 4 ≤ length s → Ends Any (inet_ntoa s)
unfolding inet_ntoa
inet_ntoa-Ends [] h = absurd (omega arith)
inet_ntoa-Ends (a ∷ []) h = absurd (omega arith)
inet_ntoa-Ends (a ∷ b ∷ []) h = absurd (omega arith)
inet_ntoa-Ends (a ∷ b ∷ c ∷ []) h = absurd (omega arith)
inet_ntoa-Ends (a ∷ b ∷ c ∷ d ∷ more) h = returns tt

address-Ends : (found : Bool) (o : Option Bytes) → HasBytes 14 o → Ends Any (ip_text found o)
unfolding ip_text
address-Ends found none h = returns tt
address-Ends found (some sa_data) h =
    Ends->>= (inet_ntoa-Ends (drop 2 sa_data) (omega (arith, length-drop 2 sa_data)))
      (λ ip_str _. strdup-Ends found ip_str)

get_iface_ip-Ends :
    (opened found : Bool) (machine : Machine) (name : Bytes)
    → IsMachine machine
    → Ends Any (get_iface_ip opened found machine.address name)
unfolding get_iface_ip
get_iface_ip-Ends false found machine name is = returns tt
get_iface_ip-Ends true found machine name is = address-Ends found _ (is.address_bytes _)

mac_string-Ends : (s : Bytes) → 6 ≤ length s → Ends Any (mac_string s)
unfolding mac_string
mac_string-Ends [] h = absurd (omega arith)
mac_string-Ends (a ∷ []) h = absurd (omega arith)
mac_string-Ends (a ∷ b ∷ []) h = absurd (omega arith)
mac_string-Ends (a ∷ b ∷ c ∷ []) h = absurd (omega arith)
mac_string-Ends (a ∷ b ∷ c ∷ d ∷ []) h = absurd (omega arith)
mac_string-Ends (a ∷ b ∷ c ∷ d ∷ e ∷ []) h = absurd (omega arith)
mac_string-Ends (a ∷ b ∷ c ∷ d ∷ e ∷ f ∷ more) h = returns tt

mac_text-Ends : (found : Bool) (o : Option Bytes) → HasBytes 14 o → Ends Any (mac_text found o)
unfolding mac_text
mac_text-Ends found none h = returns tt
mac_text-Ends found (some hwaddr) h =
    Ends->>= (mac_string-Ends hwaddr (omega arith)) (λ mac _. strdup-Ends found mac)

get_iface_mac-Ends :
    (opened found : Bool) (machine : Machine) (name : Bytes)
    → IsMachine machine
    → Ends Any (get_iface_mac opened found machine.hardware_address name)
unfolding get_iface_mac
get_iface_mac-Ends false found machine name is = returns tt
get_iface_mac-Ends true found machine name is = mac_text-Ends found _ (is.hardware_bytes _)

-- The configuration with the three settings and the identifier filled in.
abbrev pub filled : Bytes → Bytes → Option Bytes → Option Bytes → Config → Config
filled name ip mac id c = record c {
  gw_ac_interface = some name;
  gw_ac_ip_address = some ip;
  gw_ac_mac_address = mac;
  gw_ac_id = id;
}

abbrev pub IsGiven : Option Bytes → Type 0
IsGiven none = ⊥
IsGiven (some s) = Unit

-- With the identifier, where the hardware address was not set before.
pub record Filled (c c' : Config) : Type 0 where
  pub name : Bytes
  pub ip : Bytes
  pub mac : Bytes
  pub id : Option Bytes
  pub is : c' ≡ filled name ip (some mac) id c
  pub identified : c.gw_ac_mac_address ≡ none → IsGiven id

module _ (machine : Machine) (is : IsMachine machine) where
  abbrev Interfaced : Config → Config → Type 0
  Interfaced c c' = (name : Bytes) × (c' ≡ record c { gw_ac_interface = some name })

  find_interface-Ends : (c : Config) → Ends (Interfaced c) (find_interface machine c)
  unfolding find_interface
  find_interface-Ends c = rw is.detects (
      Ends->>= (keep_or_find-Ends c.gw_ac_interface (ok is.route) (returns tt))
        (λ name _. returns (name, refl)))

  abbrev Located : Config → Config → Type 0
  Located c c' = (ip : Bytes) × (c' ≡ record c { gw_ac_ip_address = some ip })

  find_ip_address-Ends :
      (c : Config) (name : Bytes)
      → c.gw_ac_interface ≡ some name
      → Ends (Located c) (find_ip_address machine c)
  unfolding find_ip_address ip_of
  find_ip_address-Ends c name e = rw e (
      Ends->>=
        (keep_or_find-Ends c.gw_ac_ip_address _
          (get_iface_ip-Ends machine.ip_socket machine.found machine name is))
        (λ ip _. returns (ip, refl)))

  abbrev Identified : Config → Config → Type 0
  Identified c c' =
      (mac : Bytes) × (id : Option Bytes) × (c'
        ≡ record c { gw_ac_mac_address = some mac; gw_ac_id = id })
      × (c.gw_ac_mac_address ≡ none → IsGiven id)

  id_or-Ends : (id : Option Bytes) (mac : Bytes) → Ends IsGiven (id_or machine id mac)
  id_or-Ends (some id) mac = returns tt
  id_or-Ends none mac =
      Ends-if machine.found (ok (some mac)) (exits 1) (λ _. returns tt) (λ _. fails (omega arith))

  mac_or_find-Ends :
      (c : Config) (name : Bytes) (o : Option Bytes)
      → c.gw_ac_interface ≡ some name
      → c.gw_ac_mac_address ≡ o
      → Ends (Identified c) (mac_or_find machine o c)
  unfolding mac_of
  mac_or_find-Ends c name (some mac) e at =
      rw at (returns (mac, c.gw_ac_id, refl, (λ n. absurd (cc (n)))))
  mac_or_find-Ends c name none e at = rw e (
      Ends->>= (get_iface_mac-Ends machine.mac_socket machine.found machine name is) (λ r _.
        Ends->>= (required-Ends r) (λ mac _.
          Ends->>= (id_or-Ends c.gw_ac_id mac) (λ id set. returns (mac, id, refl, (λ n. set))))))

  pub find_settings-Ends : (c : Config) → Ends (Filled c) (find_settings machine c)
  unfolding find_settings find_mac_address
  find_settings-Ends c = Ends->>= (find_interface-Ends c) (λ c1 (name, e1).
      Ends->>= (find_ip_address-Ends c1 name (ap (λ (c : Config). c.gw_ac_interface) e1))
        (λ c2 (ip, e2).
          Ends-mono
            (mac_or_find-Ends c2 name c2.gw_ac_mac_address
              (ap (λ (c : Config). c.gw_ac_interface) e2
                ∙ ap (λ (c : Config). c.gw_ac_interface) e1)
              refl)
            (λ c3 (mac, id, e3, set). record {
              name = name;
              ip = ip;
              mac = mac;
              id = id;
              is =
                  e3
                  ∙ ap (λ (c : Config). record c { gw_ac_mac_address = some mac; gw_ac_id = id }) e2
                  ∙ ap
                      (λ (c : Config). record c {
                        gw_ac_ip_address = some ip;
                        gw_ac_mac_address = some mac;
                        gw_ac_id = id;
                      })
                      e1;
              identified = λ n. set (
                  ap (λ (c : Config). c.gw_ac_mac_address) e2
                  ∙ ap (λ (c : Config). c.gw_ac_mac_address) e1
                  ∙ n);
            })))
