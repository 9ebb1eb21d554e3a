-- ===== src/Tests/Safe.antt =====
-- A fork with two registered descriptors.
use smart_ac.Base.{refl, none, [], ◌∷◌, arith}
use smart_ac.Cstring.Number.{pos}
use smart_ac.Outcome.{Returns, ◌>>=◌}
use smart_ac.Safe.{Descriptors, safe_fork}
use smart_ac.Safe.Forked.{IsRegistered, register_all, Forked, safe_fork-Forked}

abbrev pub no_descriptors : Descriptors
no_descriptors = record { entries = λ _. none; fd_list = 0; brk = 1; room = 9; closed = [] }

pub no_descriptors-IsRegistered : IsRegistered no_descriptors []
no_descriptors-IsRegistered = record { head = refl; chain = tt; below = tt; counted = ground arith }

safe_fork-Forked_example :
    Returns
      (Forked (pos 0) (5 ∷ 6 ∷ []) no_descriptors)
      (register_all (5 ∷ 6 ∷ []) no_descriptors >>= safe_fork (pos 0))
safe_fork-Forked_example =
    safe_fork-Forked (pos 0) (5 ∷ 6 ∷ []) no_descriptors refl no_descriptors-IsRegistered
      (ground arith)
