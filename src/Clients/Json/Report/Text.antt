-- ===== src/Clients/Json/Report/Text.antt =====
-- The text of a whole ping.
use smart_ac.Base.{
  ℕ, suc, ◌%◌, ◌^◌, ◌-◌, ◌≤◌, ◌<◌, ◌≡◌, refl, ◌∙◌, Bool, true, false, Option, none, some, [], ◌∷◌,
  ◌++◌, Bytes, ltb, length, length-append, take, take_all, replicate, arith, lt→ltb,
}
use smart_ac.Clients.{Client, Lists}
use smart_ac.Clients.Json.{
  Host, append, max_string_len, get_device_info_json, get_dog_json_info, read_device,
  device_of_size, device_of_length, file_length, dog_status,
}
use smart_ac.Clients.Json.List.{client_list_text, get_client_list_json-text, values}
use smart_ac.Clients.Json.Report.{
  holds, device_info_file, dog_tail, add_dog, add_clients, add_device, flag, build_ping_json_data,
}
use smart_ac.Config.{Config}
use smart_ac.Cstring.{codes, until_nul, has_nul, has_nul-append, until_nul-append}
use smart_ac.Cstring.Number.{pos}
use smart_ac.Outcome.{ok}
use smart_ac.Store.{Ptr, null, Cells, Linked}

abbrev Fits : Bytes → Type 0
Fits s = length s < max_string_len

Fits-prefix : (a b : Bytes) → Fits (a ++ b) → Fits a
Fits-prefix a b h = omega (arith, length-append a b)

Fits-suffix : (a b : Bytes) → Fits (a ++ b) → Fits b
Fits-suffix a b h = omega (arith, length-append a b)

append-ok : (tmp s : Bytes) → Fits (tmp ++ s) → append max_string_len tmp s ≡ ok (tmp ++ s)
append-ok tmp s h = rw (lt→ltb (length (tmp ++ s)) max_string_len h) refl

-- What `wdctl status` printed, as it stands in the text.
abbrev status_text : Option Bytes → Option Bytes
status_text none = none
status_text (some out) = some (codes "\"wifidog_status\":" ++ until_nul (take max_string_len out))

abbrev tail : Bool → Option Bytes → Bytes
tail true out = dog_tail (status_text out)
tail false out = codes "}"

dog_status-ok :
    (out : Option Bytes)
    → Fits (dog_tail (status_text out))
    → dog_status max_string_len out ≡ ok (status_text out)
unfolding dog_status
dog_status-ok none h = refl
dog_status-ok (some out) h =
    let text = codes "\"wifidog_status\":" ++ until_nul (take max_string_len out) in
    let fits : Fits text =
      Fits-prefix text (codes "}") (Fits-suffix (codes ",") (text ++ codes "}") h) in
    rw (lt→ltb (length text) max_string_len fits) refl

file_length-small : (n : ℕ) → n < 2 ^ 31 → file_length n ≡ pos n
unfolding file_length
file_length-small n h =
    let low : n % 2 ^ 32 ≡ n = omega arith in
    let small : ltb n (2 ^ 31) ≡ true = ground arith in rw (low, small) refl

module _ (host : Host) (config : Config) where
  abbrev command : Bytes
  command = config.wifidog_path ++ codes "wdctl status"

  -- The text of a ping that reports `device` and `clients`.
  abbrev pub ping_text : Bytes → Bytes → Bytes → Bytes
  ping_text gw_id device clients =
      ((((codes "{\"gw_id\":\"" ++ gw_id ++ codes "\",") ++ flag (holds config.is_have_wifidog))
          ++ (device ++ codes ","))
        ++ clients)
      ++ tail (holds config.is_have_wifidog) (host.run command)

  module _ (tmp : Bytes) (short : length config.wifidog_path < 100) where
    add_dog-case :
        (b : Bool)
        → holds config.is_have_wifidog ≡ b
        → Fits (tmp ++ tail b (host.run command))
        → add_dog host config tmp ≡ ok (tmp ++ tail b (host.run command))
    unfolding add_dog get_dog_json_info
    add_dog-case true e h =
        let short' : length command < 128 =
          omega (arith, length-append config.wifidog_path (codes "wdctl status")) in
        rw
          (
            e,
            lt→ltb (length command) 128 short',
            dog_status-ok (host.run command) (Fits-suffix tmp (tail true (host.run command)) h),
          )
          (append-ok tmp (tail true (host.run command)) h)
    add_dog-case false e h = rw e (append-ok tmp (codes "}") h)

  device-ok :
      (n : ℕ) (device : Bytes)
      → host.stat device_info_file ≡ some n
      → host.open_file device_info_file ≡ some device
      → length device ≤ n
      → n < max_string_len
      → has_nul device ≡ false
      → get_device_info_json host (some max_string_len) device_info_file ≡ ok (some device)
  unfolding get_device_info_json device_of_size device_of_length read_device has_nul
  device-ok n device size file read short text =
      let small : ltb max_string_len n ≡ false = ground arith in
      let room : max_string_len - length device ≡ suc (max_string_len - length device - 1) =
        omega arith in
      let zero_behind : has_nul (device ++ 0 ∷ replicate (max_string_len - length device - 1) 0)
          ≡ true =
        has_nul-append device _ ∙ rw text refl in
      rw
        (
          size,
          file,
          file_length-small n (omega (arith, short)),
          small,
          take_all n device read,
          room,
          zero_behind,
          until_nul-append device (replicate (max_string_len - length device - 1) 0) text,
          lt→ltb (length device) max_string_len (omega arith),
        )
        refl

  -- Where the device file has no NUL and is no longer than `stat` says, the path of wifidog is shorter
  -- than 100 bytes, the client list stands in the heap and is not empty, and the whole text fits into the
  -- array of 10240 bytes and into the caller's, a ping reports the gateway's id, the flag, the contents
  -- of the device file, the client list and, with wifidog, its status.
  pub build_ping_json_data-text :
      (size n : ℕ) (gw_id device : Bytes) (m : Lists) (p : Ptr) (c : Client) (cs : Cells Client)
      → length config.wifidog_path < 100
      → host.stat device_info_file ≡ some n
      → host.open_file device_info_file ≡ some device
      → length device ≤ n
      → n < max_string_len
      → has_nul device ≡ false
      → length cs < m.brk
      → Linked m.clients null ((p, c) ∷ cs)
      → let text = ping_text gw_id device (client_list_text c (values cs)) in
        Fits text
        → length text < size
        → build_ping_json_data host config (some size) gw_id p m ≡ ok (some text)
  unfolding build_ping_json_data add_device add_clients
  build_ping_json_data-text size n gw_id device m p c cs short stat file read small text f l fits
        fits' =
      let head = codes "{\"gw_id\":\"" ++ gw_id ++ codes "\"," in
      let flagged = head ++ flag (holds config.is_have_wifidog) in
      let with_device = flagged ++ (device ++ codes ",") in
      let clients = client_list_text c (values cs) in
      let end = tail (holds config.is_have_wifidog) (host.run command) in
      let fits3 : Fits (with_device ++ clients) = Fits-prefix (with_device ++ clients) end fits in
      let fits2 : Fits with_device = Fits-prefix with_device clients fits3 in
      let fits1 : Fits flagged = Fits-prefix flagged (device ++ codes ",") fits2 in
      let fits0 : Fits head = Fits-prefix head (flag (holds config.is_have_wifidog)) fits1 in
      let all_clients : Fits clients = Fits-suffix with_device clients fits3 in
      rw
        (
          append-ok [] head fits0,
          append-ok head (flag (holds config.is_have_wifidog)) fits1,
          device-ok n device stat file read small text,
          append-ok flagged (device ++ codes ",") fits2,
          get_client_list_json-text max_string_len m p c cs f l,
          append-ok [] clients all_clients,
          lt→ltb (length clients) max_string_len all_clients,
          append-ok with_device clients fits3,
          add_dog-case (with_device ++ clients) short (holds config.is_have_wifidog) refl fits,
          lt→ltb (length (with_device ++ clients ++ end)) size fits',
        )
        refl
