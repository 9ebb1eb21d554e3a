-- ===== src/Tests/UpdateList.antt =====
-- The update program with two addresses and one that is too long, and a `fork` that fails for the fourth.
use smart_ac.Base.{ℕ, ◌≡◌, refl, Bool, true, not, List, [], ◌∷◌, Bytes, ◌==◌}
use smart_ac.Cstring.{codes}
use smart_ac.Outcome.{ok, fault}
use smart_ac.UpdateList.{check_paramter, do_wdctl_reset, update_loop, update_list}
use smart_ac.UpdateList.Updated.{reset_of, Updated, update_list-Updated}

abbrev mac_1 : Bytes
mac_1 = codes "00:11:22:33:44:55"

abbrev mac_2 : Bytes
mac_2 = codes "66:77:88:99:aa:bb"

abbrev too_long : Bytes
too_long = codes "00:11:22:33:44:55:66:77:88:99:aa"

abbrev all_but_the_fourth : ℕ → Bool
all_but_the_fourth i = not (i == 4)

update_list_lem :
    update_list all_but_the_fourth (λ argv. true) (mac_1 ∷ too_long ∷ mac_2 ∷ mac_1 ∷ mac_2 ∷ [])
    ≡ (ok (reset_of mac_1) ∷ fault ∷ ok (reset_of mac_2) ∷ [], 255)
unfolding update_list update_loop do_wdctl_reset check_paramter
update_list_lem = refl

update_list-Updated_example :
    ((mac : Bytes) (macs : List Bytes)
      → Updated all_but_the_fourth
          (λ argv. true)
          1
          (mac ∷ macs)
          (update_list all_but_the_fourth (λ argv. true) (mac ∷ macs)))
    × (update_list all_but_the_fourth (λ argv. true) [] ≡ ([], 255))
update_list-Updated_example = update_list-Updated all_but_the_fourth (λ argv. true)
