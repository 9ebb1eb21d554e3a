-- ===== src/Tests/Ping.antt =====
-- A ping's answer and the thread that posts a result, on concrete data.
use smart_ac.Base.{ℕ, refl, Option, some, List, [], Bytes, arith}
use smart_ac.Cstring.{codes, find_from, starts_with}
use smart_ac.Http.Get.{Event}
use smart_ac.Remote.{id_fits}
use smart_ac.Outcome.{Returns}
use smart_ac.Ping.{handle_answer}
use smart_ac.Ping.Answer.{Answered, IsCommand, handle_answer-Answered}
use smart_ac.Tests.Http.{pieces}
use smart_ac.Tests.Queue.{empty_memory, empty, empty-IsQueue}
use smart_ac.Tests.Remote.{shell, hello}

abbrev answer : Bytes
answer = codes "Pong|@id7|>echo hello"

answer-IsCommand : IsCommand answer (codes "@id7|>echo hello") (codes "echo hello")
unfolding find_from starts_with id_fits
answer-IsCommand = record {
  bar = b'|';
  bar' = b'|';
  skipped = b'>';
  pong = answer;
  has_pong = refl;
  has_bar = refl;
  has_command = refl;
  short_id = refl;
  fits = ground arith;
  command_fits = ground arith;
}

handle_answer-Answered_example :
    Returns (Answered [] [] hello) (handle_answer shell 5 0 (some answer) empty empty_memory)
handle_answer-Answered_example =
    handle_answer-Answered shell 5 answer (codes "@id7|>echo hello") (codes "echo hello") hello
      empty empty_memory [] [] answer-IsCommand refl (ground arith) empty-IsQueue (ground arith)

-- The other side takes any request and answers.
abbrev pub talk : ℕ → Bytes → ℕ → Option ℕ × List Event
talk fd request w = (some 7, pieces)
