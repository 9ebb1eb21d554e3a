-- ===== src/Clients/Fields/Last.antt =====
-- The last field of a line, which keeps the newline.
use smart_ac.Base.{◌≡◌, refl, ap, ◌∙◌, true, false, some, [], ◌∷◌, ◌++◌, Bytes, drop, arith}
use smart_ac.Clients.Fields.{at, is_delimiter, cut_line, slot_text}
use smart_ac.Clients.Fields.Split.{
  clean, cut_line-token, drop-next, Fields, r1, r2, r3, r4, print, o1, o2, o3, o4, Clean,
}
use smart_ac.Cstring.{until_nul}
use smart_ac.Outcome.{ok}

module _ (behind : Bytes) (newline : is_delimiter behind b'\n' ≡ false) where
  cut_line-last :
      (a : Bytes) → clean behind a ≡ true → cut_line behind (a ++ b'\n' ∷ []) ≡ a ++ b'\n' ∷ []
  unfolding cut_line
  cut_line-last [] h = rw newline refl
  cut_line-last (c ∷ a) h = ground (arith, cut_line-last a)

  until_nul-last :
      (a : Bytes) → clean behind a ≡ true → until_nul (a ++ b'\n' ∷ []) ≡ a ++ b'\n' ∷ []
  unfolding until_nul
  until_nul-last [] h = refl
  until_nul-last (c ∷ a) h = ground (arith, until_nul-last a)

  pub slot_text-last :
      (f : Fields)
      → Clean behind newline f
      → slot_text (cut_line behind (print behind newline f)) (at (o4 behind newline f))
        ≡ ok (some (f.f4 ++ b'\n' ∷ []))
  unfolding slot_text
  slot_text-last f (h0, h1, h2, h3, h4) =
      let line = cut_line behind (print behind newline f) in
      let e0 : line ≡ f.f0 ++ 0 ∷ cut_line behind (r1 behind newline f) =
        cut_line-token behind f.f0 (r1 behind newline f) h0 in
      let e1 : drop (o1 behind newline f) line ≡ f.f1 ++ 0 ∷ cut_line behind (r2 behind newline f) =
        drop-next 0 line f.f0 _ 0 e0 ∙ cut_line-token behind f.f1 (r2 behind newline f) h1 in
      let e2 : drop (o2 behind newline f) line ≡ f.f2 ++ 0 ∷ cut_line behind (r3 behind newline f) =
        drop-next (o1 behind newline f) line f.f1 _ 0 e1
        ∙ cut_line-token behind f.f2 (r3 behind newline f) h2 in
      let e3 : drop (o3 behind newline f) line ≡ f.f3 ++ 0 ∷ cut_line behind (r4 behind newline f) =
        drop-next (o2 behind newline f) line f.f2 _ 0 e2
        ∙ cut_line-token behind f.f3 (r4 behind newline f) h3 in
      let e4 : drop (o4 behind newline f) line ≡ f.f4 ++ b'\n' ∷ [] =
        drop-next (o3 behind newline f) line f.f3 _ 0 e3 ∙ cut_line-last f.f4 h4 in
      ap (λ t. ok (some (until_nul t))) e4 ∙ ap (λ t. ok (some t)) (until_nul-last f.f4 h4)
