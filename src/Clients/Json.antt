-- ===== src/Clients/Json.antt =====
-- The JSON text of a ping, built by `sprintf` into arrays of `MAX_STRING_LEN` bytes. An array is the
-- string in it, and a caller's `char *json` is the size of the array behind it, or null. `none` as a
-- result is -1.
pub mod List
pub mod Report
use smart_ac.Base.{
  ℕ, zero, suc, ◌+◌, ◌-◌, ◌%◌, ◌^◌, leb, Bool, true, not, Option, none, some, [], ◌++◌, Bytes, ◌==◌,
  ltb, if◌then◌else◌, length, take, replicate,
}
use smart_ac.Clients.{Client, Lists}
use smart_ac.Cstring.{codes, c_string, until_nul}
use smart_ac.Cstring.Number.{ℤ, pos, negsuc, print_int, atoi, skip_spaces, is_digit}
use smart_ac.Outcome.{Outcome, ok, fault, ◌>>=◌, within}
use smart_ac.Store.{Ptr, null, load}

-- `MAX_STRING_LEN`
abbrev pub max_string_len : ℕ
max_string_len = 10240

-- `sprintf (tmp + strlen (tmp), "%s", s)`
abbrev pub append : ℕ → Bytes → Bytes → Outcome Bytes
append size tmp s = within (ltb (length (tmp ++ s)) size) (tmp ++ s)

-- `sprintf (json, "%s", tmp)` after which the function returns 0
abbrev pub put_text : ℕ → Bytes → Outcome (Option Bytes)
put_text size text = within (ltb (length text) size) (some text)

-- The object of one client, with the comma behind it.
unfoldable pub client_object : Client → Bytes
client_object c =
    codes "{\"mac\":\""
    ++ c.c_mac
    ++ codes "\",\"ip\":\""
    ++ c.c_ip
    ++ codes "\",\"incoming\":"
    ++ print_int c.incoming
    ++ codes ",\"outgoing\":"
    ++ print_int c.outgoing
    ++ codes ",\"hostname\":\""
    ++ c.c_hostname
    ++ codes "\",\"go_speed\":"
    ++ print_int c.go_speed
    ++ codes ",\"come_speed\":"
    ++ print_int c.come_speed
    ++ codes "},"

-- `while (c_p) { … }`
unfoldable pub objects_loop : ℕ → Lists → Ptr → Bytes → Outcome Bytes
objects_loop zero m c_p tmp = fault
objects_loop (suc fuel) m c_p tmp =
    let rest = (do
      c ← load m.clients c_p
      tmp ← append max_string_len tmp (client_object c.value)
      objects_loop fuel m c.next tmp) in
    if c_p == null then ok tmp else rest

-- `tmp[cur_len - 1] = ' '; tmp[cur_len] = ']';`, and the zero that must stand behind.
abbrev pub close_list : Bytes → Outcome Bytes
close_list tmp =
    within (ltb (length tmp + 1) max_string_len) (take (length tmp - 1) tmp ++ codes " ]")

unfoldable pub get_client_list_json : Option ℕ → Ptr → Lists → Outcome (Option Bytes)
get_client_list_json none c_list m = ok none
get_client_list_json (some size) c_list m = if c_list == null then ok none else do
  tmp ← append max_string_len [] (codes "\"clientList\":[")
  tmp ← objects_loop (m.brk + 1) m c_list tmp
  tmp ← close_list tmp
  put_text size tmp

-- What the functions ask of the host: the size of a file by `stat`, the contents of a file that
-- `fopen` opens, and the output of a command that `popen` starts.
pub record Host : Type 0 where
  pub stat : Bytes → Option ℕ
  pub open_file : Bytes → Option Bytes
  pub run : Bytes → Option Bytes

-- `int file_len = stat_buf.st_size` keeps the low 32 bits.
unfoldable pub file_length : ℕ → ℤ
file_length st_size =
    let low = st_size % 2 ^ 32 in if ltb low (2 ^ 31) then pos low else negsuc (2 ^ 32 - low - 1)

-- `fread (tmp, 1, file_len, fp)` into the zeroed array, and `sprintf` out of it.
unfoldable pub read_device : ℕ → ℕ → Option Bytes → Outcome (Option Bytes)
read_device size file_len none = ok none
read_device size file_len (some s) = do
  let got = take file_len s
  text ← c_string (got ++ replicate (max_string_len - length got) 0)
  put_text size text

-- A negative length passes the test, and as the size that `fread` is given it bounds nothing: the file
-- must fit.
unfoldable pub device_of_length : ℕ → ℤ → Option Bytes → Outcome (Option Bytes)
device_of_length size (pos file_len) file =
    if ltb max_string_len file_len then ok none else read_device size file_len file
device_of_length size (negsuc n) none = ok none
device_of_length size (negsuc n) (some s) = do
  s ← within (leb (length s) max_string_len) s
  read_device size (length s) (some s)

unfoldable pub device_of_size : ℕ → Option ℕ → Option Bytes → Outcome (Option Bytes)
unfolding file_length
device_of_size size none file = ok none
device_of_size size (some st_size) file = device_of_length size (file_length st_size) file

unfoldable pub get_device_info_json : Host → Option ℕ → Bytes → Outcome (Option Bytes)
get_device_info_json host none path = ok none
get_device_info_json host (some size) path =
    device_of_size size (host.stat path) (host.open_file path)

-- `tmp` is an array of pointers and so larger than what `fread` puts into it.
unfoldable pub dog_status : ℕ → Option Bytes → Outcome (Option Bytes)
dog_status size none = ok none
dog_status size (some out) =
    put_text size (codes "\"wifidog_status\":" ++ until_nul (take max_string_len out))

unfoldable pub get_dog_json_info : Host → Option ℕ → Bytes → Outcome (Option Bytes)
get_dog_json_info host none wdctl = ok none
get_dog_json_info host (some size) wdctl = dog_status size (host.run wdctl)
