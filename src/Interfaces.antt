-- ===== src/Interfaces.antt =====
-- smartac_util.c, but for the growing string: what the program asks the kernel about its interfaces, and
-- the processes that it starts. The answers of the system calls are arguments.
pub mod Route
pub mod Mac
pub mod Executed
use smart_ac.Base.{
  ℕ, ◌+◌, ◌-◌, ◌*◌, ◌/◌, ◌%◌, ◌^◌, Bool, true, false, Option, none, some, List, [], ◌∷◌, ◌++◌,
  Bytes, ◌==◌, ltb, leb, if◌then◌else◌, length, take, drop,
}
use smart_ac.Clients.Json.Report.{is_zero}
use smart_ac.Config.{is_minus_one}
use smart_ac.Cstring.{codes}
use smart_ac.Cstring.Number.{ℤ, pos, negsuc, print}
use smart_ac.Outcome.{Outcome, ok, exits, fault, ◌>>=◌, within}
use smart_ac.Safe.{Descriptors, is_child, safe_fork, safe_strdup}

-- `ioctl` of a socket and the name of an interface: `sa_data` of the address that it stores, or none
-- where it fails.
abbrev pub Ioctl : Type 0
Ioctl = Bytes → Option Bytes

-- `strncpy (name, ifname, 15)` and the zero behind it
abbrev pub ifr_name : Bytes → Bytes
ifr_name ifname = take 15 ifname

-- The string that `safe_strdup` returns, where it returns.
abbrev pub strdup : Bool → Bytes → Outcome (Option Bytes)
strdup found s = do t ← safe_strdup found (some s); ok (some t)

-- `inet_ntoa` of the four bytes in network order
unfoldable pub inet_ntoa : Bytes → Outcome Bytes
inet_ntoa (a ∷ b ∷ c ∷ d ∷ more) =
    ok (print a ++ codes "." ++ print b ++ codes "." ++ print c ++ codes "." ++ print d)
inet_ntoa _ = fault

unfoldable pub ip_text : Bool → Option Bytes → Outcome (Option Bytes)
ip_text found none = ok none
ip_text found (some sa_data) = do ip_str ← inet_ntoa (drop 2 sa_data); strdup found ip_str

-- `opened` says whether there is a socket, `found` whether there is memory for the string.
unfoldable pub get_iface_ip : Bool → Bool → Ioctl → Bytes → Outcome (Option Bytes)
get_iface_ip false found ioctl ifname = ok none
get_iface_ip true found ioctl ifname = ip_text found (ioctl (ifr_name ifname))

-- A digit of `%X`
unfoldable pub hex_digit : ℕ → ℕ
hex_digit n = if ltb n 10 then b'0' + n else b'A' + (n - 10)

-- `%02X` of a byte
unfoldable pub hex_byte : ℕ → Bytes
unfolding hex_digit
hex_byte b = hex_digit (b / 16) ∷ hex_digit (b % 16) ∷ []

-- The six bytes of the address, cut to the array of 13.
unfoldable pub mac_string : Bytes → Outcome Bytes
unfolding hex_byte
mac_string (a ∷ b ∷ c ∷ d ∷ e ∷ f ∷ more) = ok (
    take (13 - 1)
      (hex_byte a ++ hex_byte b ++ hex_byte c ++ hex_byte d ++ hex_byte e ++ hex_byte f))
mac_string _ = fault

unfoldable pub mac_text : Bool → Option Bytes → Outcome (Option Bytes)
mac_text found none = ok none
mac_text found (some hwaddr) = do mac ← mac_string hwaddr; strdup found mac

unfoldable pub get_iface_mac : Bool → Bool → Ioctl → Bytes → Outcome (Option Bytes)
get_iface_mac false found ioctl ifname = ok none
get_iface_mac true found ioctl ifname = mac_text found (ioctl (ifr_name ifname))

-- The size that `stat` stores, kept in an `int`.
unfoldable pub get_file_length : Option ℕ → ℤ
get_file_length none = negsuc 0
get_file_length (some st_size) =
    let low = st_size % 2 ^ 32 in if ltb low (2 ^ 31) then pos low else negsuc (2 ^ 32 - low - 1)

-- The addresses of the host that `gethostbyname` finds, if it finds one; the first is taken.
unfoldable pub first_address : Option (List ℕ) → Outcome (Option ℕ)
first_address none = ok none
first_address (some []) = fault
first_address (some (addr ∷ addrs)) = ok (some addr)

unfoldable pub wd_gethostbyname : Bool → (Bytes → Option (List ℕ)) → Bytes → Outcome (Option ℕ)
wd_gethostbyname found gethostbyname name =
    if found then first_address (gethostbyname name) else exits 1

-- What `fork` and `waitpid` return for a command line, and the status that `waitpid` stores.
pub record Process : Type 0 where
  pub forked : ℤ
  pub waited : ℤ
  pub status : ℕ

-- `WIFEXITED (status)` and `WEXITSTATUS (status)`
abbrev pub if_exited : ℕ → Bool
if_exited status = status % 128 == 0

abbrev pub exit_status : ℕ → ℕ
exit_status status = status / 256 % 256

unfoldable pub wait_result : Process → ℤ
wait_result p =
    if is_minus_one p.waited
    then pos 1
    else if if_exited p.status
    then pos (exit_status p.status)
    else pos 1

-- A child only gets behind `execvp` where that fails.
unfoldable pub execute : (Bytes → Process) → Bytes → Descriptors → Outcome (ℤ × Descriptors)
execute processes cmd_line d = do
  let p = processes cmd_line
  (pid, d) ← safe_fork p.forked d
  if is_child pid then exits 1 else ok (wait_result p, d)

-- `init_excute_outdir` of smartac_do_command.c; the result says whether 0 is returned.
unfoldable pub init_excute_outdir : (Bytes → Process) → Descriptors → Outcome (Bool × Descriptors)
init_excute_outdir processes d = do
  let cmd = codes "rm -rf /tmp/.acexcuteresultdir/;mkdir /tmp/.acexcuteresultdir/"
  cmd_line ← within (ltb (length cmd) 128) cmd
  (rc, d) ← execute processes cmd_line d
  ok (is_zero rc, d)
