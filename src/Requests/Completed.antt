-- ===== src/Requests/Completed.antt =====
-- From the mount to the replay, for any sequence of requests that the kernel means to make.
use trace_file_system.Prelude.{ℤ, ◌≡◌, List, [], ◌∷◌, map}
use trace_file_system.Exec.{Env, World}
use trace_file_system.Kernel.{Ptr, Trfs, Call}
use trace_file_system.Requests.{Request}
use trace_file_system.Requests.History.{History}
use trace_file_system.Requests.Image.{HasTarget}
use trace_file_system.Requests.Session.{Session}

abbrev pub TargetsOf : List Request → Type 0
TargetsOf [] = Unit {0}
TargetsOf (req ∷ reqs) = HasTarget req × TargetsOf reqs

-- The requests have all been answered, and the log is one that treplay replays.
pub record Finished (env : Env Call) (sb : Ptr) (w : World Call Trfs) (reqs : List Request)
    : Type 0 where
  pub after : World Call Trfs
  pub answered : List (Request × ℤ)
  pub asked : map (λ p. p.0) answered ≡ reqs
  pub history : History env sb w answered after
  pub session : Session env w.vars.trecord_id answered after
