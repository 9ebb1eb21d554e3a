-- ===== src/Http/Network.antt =====
-- The network as the program meets it. Nothing of it is implemented here: each call may answer as it
-- likes and differently each time, which the state of the world accounts for.
use smart_ac.Base.{ℕ, Bool, Option, Bytes}

pub record Network : Type 1 where
  pub World : Type 0
  -- whether `malloc` finds memory for an address, or for the text of one
  pub allocates : World → Bool
  -- `gethostbyname`; none for a null pointer
  pub gethostbyname : Bytes → World → Option ℕ × World
  pub inet_ntoa : ℕ → Bytes
  -- `socket`; `none` for -1
  pub socket : World → Option ℕ × World
  -- `connect` of a socket to an address and a port; `true` for success
  pub connect : ℕ → ℕ → ℕ → World → Bool × World
  pub close : ℕ → World → World
