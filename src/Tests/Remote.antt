-- ===== src/Tests/Remote.antt =====
-- A command that is executed, queued and posted.
use smart_ac.Base.{◌∷◌, ◌≡◌, refl, false, some, none, List, [], arith, Bytes}
use smart_ac.Config.{AcServer}
use smart_ac.Cstring.{codes, has_nul, find_from, starts_with}
use smart_ac.Cstring.Number.{pos}
use smart_ac.Outcome.{ok, Returns}
use smart_ac.Queue.Results.{copied}
use smart_ac.Remote.{Shell, posted_data, contents, id_fits}
use smart_ac.Remote.Deliver.{deliver, Delivered, deliver-Delivered}
use smart_ac.Remote.Posted.{posted_data-stored}
use smart_ac.Remote.Queued.{stored}
use smart_ac.Queue.Shape.{IsQueue}
use smart_ac.Remote.Trace.{Call, put, take, run, fifo, RanAs, run-RanAs}
use smart_ac.Tests.Queue.{empty_memory, empty, empty-IsQueue}

abbrev pub hello : Bytes
hello = codes "hello\n"

-- A shell in which every command prints this.
abbrev pub shell : Shell
shell cmd_line name = contents hello

abbrev server : AcServer
server = record {
  hostname = codes "h.com";
  ping_path = codes "/ping";
  result_path = codes "/result";
  port = pos 80;
  last_ip = none;
}

hello-has_nul : has_nul hello ≡ false
unfolding has_nul
hello-has_nul = refl

found : find_from (codes "|") (codes "@id7|>echo hello") ≡ some (codes "|>echo hello")
unfolding find_from starts_with
found = refl

deliver-Delivered_example :
    Returns
      (Delivered server hello)
      (deliver shell 5 server (codes "@id7|>echo hello") empty empty_memory)
unfolding id_fits
deliver-Delivered_example =
    deliver-Delivered shell 5 server (codes "@id7|>echo hello") (codes "echo hello") hello b'|' b'>'
      empty empty_memory found refl (ground arith) refl hello-has_nul (ground arith) empty-IsQueue
      (ground arith)

posted_data-stored_example : posted_data (copied (stored hello)) ≡ ok hello
posted_data-stored_example = posted_data-stored hello hello-has_nul (ground arith)

roomy-IsQueue : IsQueue (record empty_memory { room = 18 }) empty [] []
roomy-IsQueue = record {
  chain = empty-IsQueue.chain;
  rear_is = refl;
  holds = tt;
  below = empty-IsQueue.below;
}

abbrev calls : List Call
calls = take ∷ put hello ∷ put (codes "bye") ∷ take ∷ put [] ∷ take ∷ []

run-RanAs_example :
    Returns (RanAs (fifo calls [])) (run calls empty (record empty_memory { room = 18 }))
run-RanAs_example =
    run-RanAs calls (record empty_memory { room = 18 }) empty [] [] roomy-IsQueue
      (ground arith, (ground arith, (ground arith, tt))) (ground arith)
