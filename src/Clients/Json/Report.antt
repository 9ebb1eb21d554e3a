-- ===== src/Clients/Json/Report.antt =====
-- `build_ping_json_data`, which puts the parts together, and `update_ac_information`.
pub mod Text
use smart_ac.Base.{
  ℕ, Bool, true, not, Option, none, some, [], ◌∷◌, ◌++◌, Bytes, ◌==◌, ltb, if◌then◌else◌, length,
  take, ◌||◌, false,
}
use smart_ac.Clients.{Lists}
use smart_ac.Clients.Json.{
  Host, append, put_text, max_string_len, get_client_list_json, get_device_info_json,
  get_dog_json_info,
}
use smart_ac.Config.{Config}
use smart_ac.Cstring.{codes}
use smart_ac.Cstring.Number.{ℤ, pos, negsuc, atoi, skip_spaces, is_digit}
use smart_ac.Outcome.{Outcome, ok, ◌>>=◌, within}
use smart_ac.Store.{Ptr}

-- A number as a condition.
abbrev pub holds : ℤ → Bool
holds (pos n) = not (n == 0)
holds (negsuc n) = true

-- `DEVICE_INFO_FILE`
abbrev pub device_info_file : Bytes
device_info_file = codes "/tmp/.device.info"

abbrev pub dog_tail : Option Bytes → Bytes
dog_tail none = codes ",\"wifidog_status\":{}}"
dog_tail (some status) = codes "," ++ status ++ codes "}"

-- The end of the text, with the status of wifidog where there is one.
unfoldable pub add_dog : Host → Config → Bytes → Outcome Bytes
add_dog host config tmp =
    if holds config.is_have_wifidog
    then (do
      wdctl ← append 128 [] (config.wifidog_path ++ codes "wdctl status")
      status ← get_dog_json_info host (some max_string_len) wdctl
      append max_string_len tmp (dog_tail status))
    else append max_string_len tmp (codes "}")

unfoldable pub add_clients : Host → Config → ℕ → Bytes → Option Bytes → Outcome (Option Bytes)
add_clients host config size tmp none = ok none
add_clients host config size tmp (some clients) = do
  tmp ← append max_string_len tmp clients
  tmp ← add_dog host config tmp
  put_text size tmp

unfoldable pub add_device :
    Host → Config → ℕ → Ptr → Lists → Bytes → Option Bytes → Outcome (Option Bytes)
add_device host config size c_list m tmp none = ok none
add_device host config size c_list m tmp (some device) = do
  tmp ← append max_string_len tmp (device ++ codes ",")
  clients ← get_client_list_json (some max_string_len) c_list m
  add_clients host config size tmp clients

abbrev pub flag : Bool → Bytes
flag true = codes "\"wifidog_flag\":true,"
flag false = codes "\"wifidog_flag\":false,"

unfoldable pub build_ping_json_data :
    Host → Config → Option ℕ → Bytes → Ptr → Lists → Outcome (Option Bytes)
build_ping_json_data host config none gw_id c_list m = ok none
build_ping_json_data host config (some size) gw_id c_list m = do
  tmp ← append max_string_len [] (codes "{\"gw_id\":\"" ++ gw_id ++ codes "\",")
  tmp ← append max_string_len tmp (flag (holds config.is_have_wifidog))
  device ← get_device_info_json host (some max_string_len) device_info_file
  add_device host config size c_list m tmp device

-- Whether `atoi` stops inside the array: the digits end before the bytes that were read do. What
-- stands behind them was never written.
unfoldable pub digits_end : Bytes → Bool
unfolding is_digit
digits_end [] = false
digits_end (c ∷ s) = not (is_digit c) || digits_end s

unfoldable pub number_ends : Bytes → Bool
unfolding digits_end
number_ends [] = false
number_ends (c ∷ s) = if c == b'-' || c == b'+' then digits_end s else digits_end (c ∷ s)

abbrev pub is_zero : ℤ → Bool
is_zero i = not (holds i)

-- Whether 0 is returned; else -1.
unfoldable pub check_answer : Option Bytes → Outcome Bool
check_answer none = ok false
check_answer (some out) =
    let ret = take 10 out in within (number_ends (skip_spaces ret)) (is_zero (atoi ret))

unfoldable pub update_ac_information : Host → Bytes → Outcome Bool
unfolding check_answer
update_ac_information host opt_type = do
  cmd ← append 128 [] (codes "/usr/bin/update_ac_information.sh  " ++ opt_type)
  check_answer (host.run cmd)
