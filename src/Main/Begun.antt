-- ===== src/Main/Begun.antt =====
-- The whole start of the program.
use smart_ac.Base.{
  none, ℕ, ◌<◌, ◌≡◌, ◌≢◌, refl, ap, true, [], ◌∷◌, Bytes, length, Bool-cases, inl, inr, arith,
}
use smart_ac.Clients.Json.Report.{is_zero}
use smart_ac.Config.{Config, is_minus_one}
use smart_ac.Cstring.Number.{ℤ, pos}
use smart_ac.Main.{Machine, Running, Arguments, start_up, go_to_background, smartac_main}
use smart_ac.Main.Addresses.{IsMachine, IsGiven}
use smart_ac.Main.Prepared.{IsReady, IsPrepared, IsText, prepare-Ends}
use smart_ac.Main.Started.{IsStarted, installed, start_up-Ends}
use smart_ac.Outcome.{Ends, returns, fails, Ends->>=, Ends-if, Ends-mono, Ends-of_Returns}
use smart_ac.Queue.Shape.{IsQueue}
use smart_ac.Safe.{Descriptors, cleanup_fds, is_child, safe_fork}
use smart_ac.Safe.Forked.{IsRegistered, IsClosed, cleanup_fds-IsClosed}
use smart_ac.Store.{Cells, null}

-- The program as its loops begin.
pub record HasBegun (r : Running) : Type 0 where
  pub interface : IsGiven r.state.config.gw_ac_interface
  pub ip_address : IsGiven r.state.config.gw_ac_ip_address
  pub mac_address : IsGiven r.state.config.gw_ac_mac_address
  pub identifier : IsGiven r.state.config.gw_ac_id
  pub ready : IsReady r.state
  pub queue : IsQueue r.memory r.queue [] []
  pub handlers : r.handlers ≡ installed
  pub pinging : r.pinging ≡ true

started-HasBegun :
    (r r' : Running) → r.state.config.gw_ac_mac_address ≡ none → IsStarted r r' → HasBegun r'
started-HasBegun r r' no_mac s = record {
  interface = rw (ap (λ (c : Config). c.gw_ac_interface) s.settings.is) tt;
  ip_address = rw (ap (λ (c : Config). c.gw_ac_ip_address) s.settings.is) tt;
  mac_address = rw (ap (λ (c : Config). c.gw_ac_mac_address) s.settings.is) tt;
  identifier = rw (ap (λ (c : Config). c.gw_ac_id) s.settings.is) (s.settings.identified no_mac);
  ready = s.ready;
  queue = s.queue;
  handlers = s.handlers;
  pinging = s.pinging;
}

closed-IsRegistered :
    (d d' : Descriptors) (ds : Cells ℕ) → IsRegistered d ds → IsClosed d ds d' → IsRegistered d' []
closed-IsRegistered d d' ds is c = record {
  head = c.emptied;
  chain = tt;
  below = tt;
  counted = rw c.same_brk (omega (arith, is.counted));
}

module _ (machine : Machine) (is : IsMachine machine) (r : Running) (ds : Cells ℕ)
    (registered : IsRegistered r.descriptors ds) (ready : IsPrepared r.state)
    (ne : r.memory.brk ≢ null) where
  foreground-Ends : Ends HasBegun (start_up machine r)
  foreground-Ends =
      Ends-mono (start_up-Ends machine is r ds ready.ready registered ne)
        (λ r' s. started-HasBegun r r' ready.no_mac s)

  abbrev Cleaned : ℤ → ℤ × Descriptors → Type 0
  Cleaned forked (pid, d) = (pid ≡ forked) × IsRegistered d []

  child-Ends :
      (forked : ℤ) → is_child forked ≡ true → Ends HasBegun (go_to_background forked machine r)
  unfolding go_to_background safe_fork
  child-Ends forked child = elim (Bool-cases (is_minus_one forked)) [
    | inl e ↦ rw e (fails (omega arith))
    | inr e ↦
        rw (e, child)
          (Ends->>= {P = Cleaned forked}
            (Ends->>=
              (Ends-of_Returns (cleanup_fds r.descriptors)
                (cleanup_fds-IsClosed r.descriptors ds registered))
              (λ d' c. returns (refl, closed-IsRegistered r.descriptors d' ds registered c)))
            (λ (pid, d) (same, empty).
              let r' = record r { descriptors = d } in
              rw (same, child)
                (Ends-mono (start_up-Ends machine is r' [] ready.ready empty ne)
                  (λ r'' s. started-HasBegun r' r'' ready.no_mac s))))
  ]

-- The whole start, in the process that stays in the foreground or in the child of the fork: under
-- the conditions of its two halves -- the unset index of `parse_commandline` happens to be below
-- the number of arguments, no file contains a NUL byte or has a line in a server block that ends at
-- its front, the search for the interface ends, `ioctl` stores whole addresses or fails, the ping
-- thread can be created, a null pointer that a log message prints is harmless -- and with
-- well-formed globals, it is
-- free of the faults of the model and ends: with an exit as failed, or with the interface, its two
-- addresses and the identifier set, at least one AC server, an empty well-formed queue, a handler
-- for every signal, and the ping thread running.
pub smartac_main-Ends :
    (a : Arguments) (n : ℕ) (forked : ℤ) (machine : Machine) (r : Running) (ds : Cells ℕ)
    → a.i ≡ pos n
    → n < length (a.argv0 ∷ a.args)
    → ((path : Bytes) → IsText (a.files path))
    → IsMachine machine
    → is_child forked ≡ true
    → 0 < r.state.brk
    → r.memory.brk ≢ null
    → IsRegistered r.descriptors ds
    → Ends HasBegun (smartac_main a forked machine r)
unfolding smartac_main
smartac_main-Ends a n forked machine r ds at lt texts is child brk ne registered =
    Ends->>= (prepare-Ends a n r.state at lt texts brk) (λ s ready.
      let r' = record r { state = s } in
      Ends-if (is_zero s.config.daemon) (start_up machine r') (go_to_background forked machine r')
        (λ _. foreground-Ends machine is r' ds registered ready ne)
        (λ _. child-Ends machine is r' ds registered ready ne forked child))
