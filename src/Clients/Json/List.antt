-- ===== src/Clients/Json/List.antt =====
-- The text of the client list, and when it fits.
use smart_ac.Base.{
  ℕ, zero, suc, ◌+◌, ◌-◌, ◌<◌, ◌≡◌, refl, ap, sym, ◌∙◌, Bool, true, false, some, List, [], ◌∷◌,
  ◌++◌, Bytes, ◌==◌, ltb, length, length-append, append_assoc, append-nil, take-append, arith,
}
use smart_ac.Clients.{Client, Lists}
use smart_ac.Clients.Json.{
  append, put_text, max_string_len, client_object, objects_loop, close_list, get_client_list_json,
}
use smart_ac.Cstring.{codes}
use smart_ac.Cstring.Number.{print_int}
use smart_ac.Outcome.{Outcome, ok, exits, fault, ◌>>=◌, within}
use smart_ac.Store.{Ptr, null, Cells, first, Linked}
use smart_ac.Store.Linked.{load-Linked}

-- The object of a client, without the comma.
unfoldable pub object : Client → Bytes
object c =
    codes "{\"mac\":\""
    ++ c.c_mac
    ++ codes "\",\"ip\":\""
    ++ c.c_ip
    ++ codes "\",\"incoming\":"
    ++ print_int c.incoming
    ++ codes ",\"outgoing\":"
    ++ print_int c.outgoing
    ++ codes ",\"hostname\":\""
    ++ c.c_hostname
    ++ codes "\",\"go_speed\":"
    ++ print_int c.go_speed
    ++ codes ",\"come_speed\":"
    ++ print_int c.come_speed
    ++ codes "}"

-- The objects, with commas between them.
abbrev pub members : Client → List Client → Bytes
members c [] = object c
members c (d ∷ cs) = object c ++ codes "," ++ members d cs

unfoldable pub client_list_text : Client → List Client → Bytes
client_list_text c cs = codes "\"clientList\":[" ++ members c cs ++ codes " ]"

abbrev pub values : Cells Client → List Client
values [] = []
values ((p, c) ∷ cs) = c ∷ values cs

-- As the loop writes them, with a comma behind each.
abbrev objects : List Client → Bytes
objects [] = []
objects (c ∷ cs) = client_object c ++ objects cs

client_object-eq : (c : Client) → client_object c ≡ object c ++ codes ","
unfolding client_object object
client_object-eq c = simp append_assoc refl

objects-members : (c : Client) (cs : List Client) → objects (c ∷ cs) ≡ members c cs ++ codes ","
objects-members c [] = append-nil _ ∙ client_object-eq c
objects-members c (d ∷ cs) = rw (client_object-eq c, objects-members d cs) (simp append_assoc refl)

too_long-append : (a b : Bytes) (n : ℕ) → ltb (length a) n ≡ false → ltb (length (a ++ b)) n ≡ false
too_long-append a b n h = ground (arith, length-append a b)

within-bind :
    {A B : Type 0} (b b' : Bool) (a : A) (f : A → Outcome B) (r : B)
    → (b ≡ true → f a ≡ within b' r)
    → (b ≡ false → b' ≡ false)
    → (within b a >>= f) ≡ within b' r
within-bind true b' a f r e e' = e refl
within-bind false b' a f r e e' = rw (e' refl) refl

objects_loop-Linked :
    (fuel : ℕ) (m : Lists) (cs : Cells Client) (tmp : Bytes)
    → length cs < fuel
    → Linked m.clients null cs
    → ltb (length tmp) max_string_len ≡ true
    → objects_loop fuel m (first null cs) tmp ≡ append max_string_len tmp (objects (values cs))
unfolding objects_loop
objects_loop-Linked zero m cs tmp f l t = absurd (omega arith)
objects_loop-Linked (suc k) m [] tmp f l t = rw (append-nil tmp, t) refl
objects_loop-Linked (suc k) m ((p, c) ∷ cs) tmp f l t =
    let some_node : (p == null) ≡ false = ground (arith, l.0) in
    rw (some_node, load-Linked m.clients null p c cs l)
      (within-bind _ _ _ _ _
        (λ fits.
          objects_loop-Linked k m cs (tmp ++ client_object c) (omega arith) l.3 fits
          ∙ ap (λ t. within (ltb (length t) max_string_len) t)
              (append_assoc tmp (client_object c) (objects (values cs))))
        (λ too_long.
          ap (λ t. ltb (length t) max_string_len)
            (sym (append_assoc tmp (client_object c) (objects (values cs))))
          ∙ too_long-append (tmp ++ client_object c) (objects (values cs)) max_string_len too_long))

bind_assoc :
    {A B C : Type 0} (x : Outcome A) (f : A → Outcome B) (g : B → Outcome C)
    → (x >>= (λ a. f a >>= g)) ≡ ((x >>= f) >>= g)
bind_assoc (ok a) f g = refl
bind_assoc (exits s) f g = refl
bind_assoc fault f g = refl

-- The last comma becomes a blank, and the bracket comes behind it.
close_list-comma :
    (x : Bytes) → close_list (x ++ codes ",") ≡ append max_string_len [] (x ++ codes " ]")
close_list-comma x =
    let n : length (x ++ codes ",") + 1 ≡ length (x ++ codes " ]") =
      omega (arith, length-append x (codes ","), length-append x (codes " ]")) in
    let k : length (x ++ codes ",") - 1 ≡ length x = omega (arith, length-append x (codes ",")) in
    rw (n, k, take-append x (codes ",")) refl

closed :
    (x : Bytes)
    → (append max_string_len [] (x ++ codes ",") >>= close_list)
      ≡ append max_string_len [] (x ++ codes " ]")
closed x =
    within-bind _ _ _ close_list _ (λ fits. close_list-comma x)
      (λ too_long.
        ground (arith, too_long, length-append x (codes ","), length-append x (codes " ]")))

-- The JSON text of a list in the heap, which has no more nodes than there are addresses, is
-- `"clientList":[`, the objects of the clients in their order with commas between them, and ` ]`; where
-- that is too long for the array of 10240 bytes or for the caller's, the function writes out of bounds.
pub get_client_list_json-text :
    (size : ℕ) (m : Lists) (p : Ptr) (c : Client) (cs : Cells Client)
    → length cs < m.brk
    → Linked m.clients null ((p, c) ∷ cs)
    → get_client_list_json (some size) p m
      ≡ (append max_string_len [] (client_list_text c (values cs)) >>= put_text size)
unfolding get_client_list_json client_list_text
get_client_list_json-text size m p c cs f l =
    let some_node : (p == null) ≡ false = ground (arith, l.0) in
    rw
      (
        some_node,
        objects_loop-Linked (m.brk + 1) m ((p, c) ∷ cs) (codes "\"clientList\":[") (omega arith) l
            refl,
        objects-members c (values cs),
        bind_assoc
            (append max_string_len (codes "\"clientList\":[") (members c (values cs) ++ codes ","))
            close_list (put_text size),
        closed (codes "\"clientList\":[" ++ members c (values cs)),
      )
      refl
