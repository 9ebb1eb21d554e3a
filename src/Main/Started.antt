-- ===== src/Main/Started.antt =====
-- The start of `main_loop`.
use smart_ac.Base.{
  ℕ, ◌≡◌, ◌≢◌, refl, ap, sym, ◌∙◌, Bool, true, [], Bytes, ◌==◌, arith, Bool-cases, inl, inr,
}
use smart_ac.Config.{Config, State, is_minus_one}
use smart_ac.Cstring.Number.{ℤ}
use smart_ac.Interfaces.{Process, execute, init_excute_outdir}
use smart_ac.Main.{Machine, Running, start_ping, start_work, start_up}
use smart_ac.Main.Prepared.{IsReady}
use smart_ac.Main.Signals.{
  Signal, sigchld, sigpipe, sigterm, sigquit, sigint, Handler, ignored, sigchld_handler, terminates,
  Handlers, set_handler, install, init_signals,
}
use smart_ac.Outcome.{
  ok, exits, Ends, returns, fails, Ends->>=, Ends-if, Ends-mono, Ends-of_Returns,
}
use smart_ac.Queue.{Memory, safe_malloc, initial_queue}
use smart_ac.Queue.Insert.{initial_queue-ok}
use smart_ac.Queue.Shape.{IsQueue}
use smart_ac.Safe.{Descriptors, cleanup_fds, is_child, safe_fork}
use smart_ac.Safe.Forked.{IsRegistered, cleanup_fds-IsClosed}
use smart_ac.Store.{Cells, null}
use smart_ac.Main.Addresses.{IsMachine, Filled, find_settings-Ends}

-- The parent's descriptors stay as they are.
abbrev Same {ℓ} : {A : Type ℓ} → Descriptors → A × Descriptors → Type 0
Same d (a, d') = d' ≡ d

abbrev Child : ℤ → ℤ × Descriptors → Type 0
Child pid (pid', d') = pid' ≡ pid

execute-Ends :
    (processes : Bytes → Process) (cmd_line : Bytes) (d : Descriptors) (ds : Cells ℕ)
    → IsRegistered d ds
    → Ends (Same d) (execute processes cmd_line d)
unfolding execute safe_fork
execute-Ends processes cmd_line d ds is =
    let pid = (processes cmd_line).forked in
    elim (Bool-cases (is_minus_one pid)) [
      | inl e ↦ rw e (fails (omega arith))
      | inr e ↦ elim (Bool-cases (is_child pid)) [
        | inl child ↦
            rw (e, child)
              (Ends->>= {P = Child pid}
                (Ends->>= (Ends-of_Returns (cleanup_fds d) (cleanup_fds-IsClosed d ds is))
                  (λ d' _. returns refl))
                (λ (pid', d') e'. rw (e', child) (fails (omega arith))))
        | inr parent ↦ rw (e, parent, parent) (returns refl)
      ]
    ]

init_excute_outdir-Ends :
    (processes : Bytes → Process) (d : Descriptors) (ds : Cells ℕ)
    → IsRegistered d ds
    → Ends (Same d) (init_excute_outdir processes d)
unfolding init_excute_outdir
init_excute_outdir-Ends processes d ds is =
    Ends->>= (execute-Ends processes _ d ds is) (λ (rc, d') same. returns same)

-- A child is reaped, a broken pipe is ignored, and the three signals that end the program run its handler.
abbrev pub installed : Handlers
installed = record {
  chld = sigchld_handler;
  pipe = ignored;
  term = terminates;
  quit = terminates;
  int = terminates;
}

abbrev Set : Signal → Handler → Handlers → Handlers → Type 0
Set signal h hs hs' = hs' ≡ set_handler signal h hs

install-Ends :
    (works : Signal → Bool) (signal : Signal) (h : Handler) (hs : Handlers)
    → Ends (Set signal h hs) (install works signal h hs)
unfolding install
install-Ends works signal h hs =
    Ends-if (works signal) (ok (set_handler signal h hs)) (exits 1) (λ _. returns refl)
      (λ _. fails (omega arith))

init_signals-Ends :
    (works : Signal → Bool) (hs : Handlers) → Ends (λ hs'. hs' ≡ installed) (init_signals works hs)
unfolding init_signals
init_signals-Ends works hs = Ends->>= (install-Ends works sigchld sigchld_handler hs) (λ h1 e1.
    Ends->>= (install-Ends works sigpipe ignored h1) (λ h2 e2.
      Ends->>= (install-Ends works sigterm terminates h2) (λ h3 e3.
        Ends->>= (install-Ends works sigquit terminates h3) (λ h4 e4.
          Ends-mono (install-Ends works sigint terminates h4) (λ h5 e5.
            e5
            ∙ ap (set_handler sigint terminates) (
                e4
                ∙ ap (set_handler sigquit terminates) (
                    e3
                    ∙ ap (set_handler sigterm terminates)
                        (e2 ∙ ap (set_handler sigpipe ignored) e1))))))))

-- What the start leaves: the settings are filled in, there is still an AC server, the queue is empty and
-- well formed, the signals have their handlers, and the ping thread runs.
pub record IsStarted (r r' : Running) : Type 0 where
  pub settings : Filled r.state.config r'.state.config
  pub ready : IsReady r'.state
  pub queue : IsQueue r'.memory r'.queue [] []
  pub handlers : r'.handlers ≡ installed
  pub pinging : r'.pinging ≡ true
  pub descriptors : r'.descriptors ≡ r.descriptors

initial_queue-Ends :
    (m : Memory) → m.brk ≢ null → Ends (λ (q, m'). IsQueue m' q [] []) (initial_queue m)
unfolding initial_queue safe_malloc
initial_queue-Ends m ne = elim (Bool-cases (m.room == 0)) [
  | inl e ↦ rw e (fails (omega arith))
  | inr e ↦ Ends-of_Returns (initial_queue m) (initial_queue-ok m (ground arith) ne)
]

Filled-IsReady :
    (s : State) (c : Config) → IsReady s → Filled s.config c → IsReady (record s { config = c })
Filled-IsReady s c ready f = record {
  cells = ready.cells;
  servers = record {
    head = ap (λ (c : Config). c.ac_servers) f.is ∙ ready.servers.head;
    chain = ready.servers.chain;
    below = ready.servers.below;
    counted = ready.servers.counted;
  };
  some_server = λ e. ready.some_server (sym (ap (λ (c : Config). c.ac_servers) f.is) ∙ e);
  daemon_set = ap (λ (c : Config). is_minus_one c.daemon) f.is ∙ ready.daemon_set;
}

module _ (machine : Machine) (is : IsMachine machine) where
  start_work-Ends :
      (r r' : Running)
      → Filled r.state.config r'.state.config
      → IsReady r'.state
      → r'.descriptors ≡ r.descriptors
      → r'.memory.brk ≢ null
      → Ends (IsStarted r) (start_work machine r')
  unfolding start_work start_ping
  start_work-Ends r r' f ready same ne = Ends->>= (initial_queue-Ends r'.memory ne) (λ (q, m) queue.
      Ends->>= (init_signals-Ends machine.works r'.handlers) (λ hs all. rw is.creates (
        returns (record {
          settings = f;
          ready = ready;
          queue = queue;
          handlers = all;
          pinging = refl;
          descriptors = same;
        }))))

  -- Where the search for the external interface ends, `ioctl` stores whole addresses and the ping thread can
  -- be created, the start of the main loop from a configuration with an AC server is free of the faults of
  -- the model, where a null pointer that a log message prints is harmless, and ends. It ends the process as failed, or the three settings are filled in, and the
  -- identifier too where the hardware address was not set before, the AC servers are the same, the queue
  -- is empty and well formed, every signal has its handler, and the ping thread runs.
  pub start_up-Ends :
      (r : Running) (ds : Cells ℕ)
      → IsReady r.state
      → IsRegistered r.descriptors ds
      → r.memory.brk ≢ null
      → Ends (IsStarted r) (start_up machine r)
  unfolding start_up
  start_up-Ends r ds ready registered ne =
      Ends->>= (find_settings-Ends machine is r.state.config) (λ c f.
        Ends->>= (init_excute_outdir-Ends machine.processes r.descriptors ds registered)
          (λ (made, d) same.
            Ends-if made _ (exits 1)
              (λ _. start_work-Ends r _ f (Filled-IsReady r.state c ready f) same ne)
              (λ _. fails (omega arith))))
