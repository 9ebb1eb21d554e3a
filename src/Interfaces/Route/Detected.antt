-- ===== src/Interfaces/Route/Detected.antt =====
-- When the search for the external interface ends.
use mathlib.Core.Path.{subst}
use smart_ac.Base.{
  ℕ, zero, suc, ◌+◌, ◌-◌, ◌<◌, ◌≡◌, refl, ap, ◌∙◌, Option, none, some, Bytes, arith,
}
use smart_ac.Interfaces.Route.{after_open, detect_loop, get_ext_iface, find_default}
use smart_ac.Outcome.{Outcome, ok}

-- At this try the table could be opened and had no default route.
abbrev pub HasNoRoute : Option Bytes → Type 0
HasNoRoute none = ⊥
HasNoRoute (some table) = find_default table ≡ ok none

-- At this try the table could not be opened, or its default route is over this device.
abbrev pub Decides : Option Bytes → Option Bytes → Type 0
Decides none result = result ≡ none
Decides (some table) none = ⊥
Decides (some table) (some device) = find_default table ≡ ok (some device)

module _ (i : ℕ) (rest : Option (Outcome (Option Bytes))) where
  after_open-HasNoRoute : (o : Option Bytes) → HasNoRoute o → after_open 0 i rest o ≡ rest
  after_open-HasNoRoute none h = absurd h
  after_open-HasNoRoute (some table) h = rw h refl

  after_open-Decides :
      (o result : Option Bytes) → Decides o result → after_open 0 i rest o ≡ some (ok result)
  after_open-Decides none result h = rw h refl
  after_open-Decides (some table) none h = absurd h
  after_open-Decides (some table) (some device) h = rw h refl

module _ (tables : ℕ → Option Bytes) where
  detect_loop-waits :
      (n fuel i : ℕ)
      → ((k : ℕ) → k < n → HasNoRoute (tables (i + k)))
      → detect_loop (n + fuel) 0 i tables ≡ detect_loop fuel 0 (i + n) tables
  unfolding detect_loop
  detect_loop-waits zero fuel i h =
      let shift : i + 0 ≡ i = omega arith in
      let all : 0 + fuel ≡ fuel = omega arith in rw (shift, all) refl
  detect_loop-waits (suc n) fuel i h =
      let next : i + suc n ≡ i + 1 + n = omega arith in
      let more : suc n + fuel ≡ suc (n + fuel) = omega arith in
      let here : i + 0 ≡ i = omega arith in
      rw (next, more)
        (after_open-HasNoRoute i (detect_loop (n + fuel) 0 (i + 1) tables) (tables i)
            (subst (λ j. HasNoRoute (tables j)) here (h 0 (omega arith)))
          ∙ detect_loop-waits n fuel (i + 1) (λ k lt.
            let shifted : i + suc k ≡ i + 1 + k = omega arith in
            subst (λ j. HasNoRoute (tables j)) shifted (h (suc k) (omega arith))))

  -- If the table could be opened at each of the first `n` tries and had no default route, and at the next
  -- try it cannot be opened or has a default route, then the search ends at that try, with a null pointer
  -- or the device of that route.
  pub get_ext_iface-Decides :
      (n fuel : ℕ) (result : Option Bytes)
      → ((k : ℕ) → k < n → HasNoRoute (tables (1 + k)))
      → Decides (tables (1 + n)) result
      → n < fuel
      → get_ext_iface fuel tables ≡ some (ok result)
  unfolding get_ext_iface detect_loop
  get_ext_iface-Decides n fuel result waits decides lt =
      let enough : fuel ≡ n + suc (fuel - n - 1) = omega arith in
      ap (λ m. detect_loop m 0 1 tables) enough
      ∙ detect_loop-waits n (suc (fuel - n - 1)) 1 waits
      ∙ after_open-Decides (1 + n) (detect_loop (fuel - n - 1) 0 (1 + n + 1) tables)
          (tables (1 + n)) result decides

  -- As long as the table can be opened and has no default route, the search goes on, after any number of
  -- tries: there is no limit.
  pub get_ext_iface-waits :
      (fuel : ℕ) → ((k : ℕ) → HasNoRoute (tables (1 + k))) → get_ext_iface fuel tables ≡ none
  unfolding get_ext_iface detect_loop
  get_ext_iface-waits fuel waits =
      let all : fuel ≡ fuel + 0 = omega arith in
      ap (λ m. detect_loop m 0 1 tables) all ∙ detect_loop-waits fuel 0 1 (λ k lt. waits k)
