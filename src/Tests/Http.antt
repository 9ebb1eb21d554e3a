-- ===== src/Tests/Http.antt =====
-- The HTTP code and the growing string on concrete inputs.
use smart_ac.Base.{true, ℕ, ◌+◌, ◌≡◌, refl, some, List, [], ◌∷◌, ◌++◌, ◌==◌}
use smart_ac.Cstring.{codes, until_nul}
use smart_ac.Http.Get.{Event, reads, timeout, http_get}
use smart_ac.Http.Get.Response.{received, expected, http_get-expected}
use smart_ac.Http.Network.{Network}
use smart_ac.Outcome.{ok, Returns}
use smart_ac.Pstr.{Pstr, pstr_cat}
use smart_ac.Pstr.Cat.{IsPstr, pstr_cat-IsPstr}

-- Every name resolves to 7, and only port 81 answers; the world counts the sockets.
abbrev pub net : Network
net = record {
  World = ℕ;
  allocates = λ w. true;
  gethostbyname = λ name w. (some 7, w);
  inet_ntoa = λ addr. codes "0.0.0.7";
  socket = λ w. (some w, w + 1);
  connect = λ fd addr port w. (port == 81, w);
  close = λ fd w. w;
}

abbrev pub pieces : List Event
pieces = reads (codes "Po") ∷ reads (codes "ng") ∷ reads [] ∷ timeout ∷ []

http_get-expected_example :
    http_get (λ i. i) (some 5) (codes "GET") (some 3) pieces
    ≡ ok (expected (some 5) (codes "GET") (some 3) pieces)
http_get-expected_example = http_get-expected (λ i. i) (some 5) (codes "GET") (some 3) pieces

received-pieces : received pieces ≡ some (codes "Pong")
unfolding received until_nul
received-pieces = refl

-- A buffer of six bytes with "ab" in it.
abbrev small : Pstr
small = record { buf = b'a' ∷ b'b' ∷ 0 ∷ 9 ∷ 9 ∷ 9 ∷ []; len = 2; size = 6 }

small-IsPstr : IsPstr small (codes "ab")
small-IsPstr = record { tail = 9 ∷ 9 ∷ 9 ∷ []; buf_is = refl; len_is = refl; size_is = refl }

pstr_cat-IsPstr_example :
    Returns (λ p. IsPstr p (codes "ab" ++ codes "cd")) (pstr_cat (λ i. i) small (codes "cd"))
pstr_cat-IsPstr_example = pstr_cat-IsPstr (λ i. i) (codes "cd") small (codes "ab") small-IsPstr
