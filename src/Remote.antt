-- ===== src/Remote.antt =====
-- smartac_remotecmd.c and smartac_do_command.c: a command of the AC server is executed and its output
-- is queued; and smartac_post_result.c, up to the request that posts it. The contents of `cmd_id` are only
-- logged and are left out.
pub mod Queued
pub mod Posted
pub mod Deliver
pub mod Trace
pub mod Sound
pub mod Executed
use smart_ac.Base.{
  ℕ, ◌+◌, ◌-◌, ◌%◌, Bool, true, false, Option, none, some, [], ◌∷◌, ◌++◌, Bytes, ◌==◌, ◌&&◌, ltb,
  leb, if◌then◌else◌, length, take, drop,
}
use smart_ac.Config.{AcServer}
use smart_ac.Config.Line.{cut}
use smart_ac.Cstring.{codes, c_string, find_from}
use smart_ac.Cstring.Number.{print}
use smart_ac.Outcome.{Outcome, ok, fault, ◌>>=◌, within}
use smart_ac.Queue.{
  ResultData, ResultQueue, Memory, safe_malloc, cmdresult_malloc, cmdresult_free, insert_queue,
  max_cmd_out_buf,
}
use smart_ac.Store.{Ptr, null, write, load}

-- `MAX_CMD_BUF`
abbrev pub max_cmd_buf : ℕ
max_cmd_buf = 1024

-- `MAX_CMDID_LEN`
abbrev pub max_cmdid_len : ℕ
max_cmdid_len = 64

-- The copy into `remote_shell_cmd`.
abbrev pub get_remote_shell_command : Bytes → Outcome Bytes
get_remote_shell_command cmdptr = within (ltb (length cmdptr) max_cmd_buf) cmdptr

-- Where the command stands: one byte behind the `|` is skipped. Without a `|`, and without a byte
-- behind it, the pointer leaves the string.
abbrev pub behind_bar : Option Bytes → Outcome Bytes
behind_bar none = fault
behind_bar (some (bar ∷ skipped ∷ command)) = ok command
behind_bar (some _) = fault

-- `pp = strstr (command, "\n"); if (pp) *pp = 0;`
abbrev pub first_line : Bytes → Option (Bytes × Bytes) → Bytes
first_line command none = command
first_line command (some (line, rest)) = line

-- What comes of a command that writes to a file: it fails or the file cannot be opened, the length of
-- the file cannot be had, or what the file holds.
pub data OutFile : Type 0 where
  unopened unsized : OutFile
  contents : Bytes → OutFile

-- The shell: given a command line that writes to the named file, what comes of that file.
abbrev pub Shell : Type 0
Shell = Bytes → Bytes → OutFile

-- Whether `snprintf (cmd_id, ++pos_cmd - pos_id - 1, "%s", ++pos_id)` stays in the 64 bytes of `cmd_id`,
-- in whichever order the two increments are made, given the command from its bar on. The size is the
-- number of bytes in front of the bar or one less, and where that is -1 it bounds nothing.
unfoldable pub id_fits : Bytes → Option Bytes → Bool
id_fits shellcmd none = false
id_fits shellcmd (some from_bar) =
    if length from_bar == length shellcmd
    then leb (length shellcmd) max_cmdid_len
    else leb (length shellcmd - length from_bar) max_cmdid_len

-- The name of the file for the output, out of a number that `rand` gave.
unfoldable pub out_name : ℕ → Bytes
out_name rand =
    codes "/tmp/.acexcuteresultdir/" ++ codes "docmdout_" ++ print (rand % (9999 - 1000 + 1) + 1000)

-- The file that is opened for reading.
unfoldable pub excute_open : Shell → ℕ → Bytes → Memory → Outcome (OutFile × Memory)
unfolding out_name
excute_open shell rand command m = do
  (_, m) ← safe_malloc m
  let name = out_name rand
  let cmd_line = first_line command (cut b'\n' command) ++ codes " > " ++ name
  cmd_line ← within (ltb (length cmd_line) 4096) cmd_line
  ok (shell cmd_line name, m)

-- `excute_read (cmd_result->result, 1, out_size, pft)`, and `c_size`
unfoldable pub read_result : Bytes → ResultData → Outcome ResultData
read_result out x =
    within (leb (length out) (length x.result))
      (record x { result = out ++ drop (length out) x.result; c_size = length out })

-- `free` of a pointer that was never set: it does nothing if that happens to be null.
abbrev pub free_unset : Ptr → Outcome Bool
free_unset p = if p == null then ok true else fault

-- From the size of the output on; `out_file` is what the variable of this name happens to hold. The
-- result says whether 0 is returned.
unfoldable pub queue_output :
    Ptr → OutFile → ResultQueue → Memory → Outcome (Bool × ResultQueue × Memory)
queue_output out_file unopened q m = ok (false, q, m)
queue_output out_file unsized q m = do done ← free_unset out_file; ok (false, q, m)
queue_output out_file (contents out) q m = do
  (r, m) ← cmdresult_malloc (length out) m
  x ← load m.results r
  x ← read_result out x
  (q, m) ← insert_queue q r (record m { results = write m.results r (some x) })
  done ← free_unset out_file
  ok (done, q, m)

unfoldable pub excute_remote_shell_command :
    Shell → ℕ → Ptr → Bytes → ResultQueue → Memory → Outcome (Bool × ResultQueue × Memory)
excute_remote_shell_command shell rand out_file shellcmd q m = do
  let from_bar = find_from (codes "|") shellcmd
  pos_cmd ← behind_bar from_bar
  pos_cmd ← within (id_fits shellcmd from_bar) pos_cmd
  normal_cmd ← within (ltb (length pos_cmd) max_cmd_buf) pos_cmd
  (out, m) ← excute_open shell rand normal_cmd m
  queue_output out_file out q m

-- `VERSION`
abbrev pub version : Bytes
version = codes "0.0.1"

-- The text of the request that `thread_post_result` prints.
unfoldable pub post_text : AcServer → ℕ → Bytes → Bytes
post_text server c_size body =
    codes "POST "
    ++ server.result_path
    ++ codes " HTTP/1.0\r\nUser-Agent: WiFiAc "
    ++ version
    ++ codes "\r\nContent-Type: text/json;charset=utf-8\r\nContent-Length: "
    ++ print c_size
    ++ codes "\r\nConnection: close\r\nHost: "
    ++ server.hostname
    ++ codes "\r\n\r\n"
    ++ body

-- `memcpy (data, result->result, result->size)` into an array of `MAX_CMD_OUT_BUF` bytes, as the string
-- that it then holds; the rest of the array was never written.
unfoldable pub posted_data : ResultData → Outcome Bytes
posted_data x = do
  copied ←
      within (leb x.size max_cmd_out_buf && leb x.size (length x.result)) (take x.size x.result)
  c_string copied

-- `thread_post_result` up to the connection: the request, of at most `MAX_BUF` - 2 bytes.
unfoldable pub post_request : AcServer → Ptr → Memory → Outcome (Bytes × Memory)
post_request server result m = do
  x ← load m.results result
  body ← posted_data x
  m ← cmdresult_free result m
  ok (take (40960 - 2) (post_text server x.c_size body), m)
