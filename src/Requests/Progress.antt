-- ===== src/Requests/Progress.antt =====
-- Any sequence of requests comes to its end, if each that is logged has its objects ready in its
-- turn.
use trace_file_system.Prelude.{ℕ, ℤ, ◌≡◌, refl, ap, some, List, [], ◌∷◌, map}
use trace_file_system.Exec.{Env, World}
use trace_file_system.Kernel.{Ptr, Trfs, Call}
use trace_file_system.Dump.Log.{LogIs}
use trace_file_system.Dump.Switch.{IsHealthy}
use trace_file_system.Inode.Traced.{LogIs-SameLog}
use trace_file_system.Requests.{Request, Other, serve, serve_other}
use trace_file_system.Requests.Quiet.{serve_other-SameLog}
use trace_file_system.Requests.Ready.{Answers, Ready, Fits}
use trace_file_system.Requests.Serve.{Added, one, nothing, serve-Served}
use trace_file_system.Requests.History.{History, here, logged, other, Told, History-Told}

-- What the kernel means to do: requests that are logged, and others between them, such as the
-- lookup of a name and the opening of a file.
pub data Step : Type 0 where
  ask : Request → Step
  pass : Other → Step

abbrev pub asked_of : List Step → List Request
asked_of [] = []
asked_of (ask req ∷ steps) = req ∷ asked_of steps
asked_of (pass o ∷ steps) = asked_of steps

-- In `w` the first step can be made: a logged request has its objects ready, and data that fit a
-- record; another request comes to an end. In whatever state it leaves, the rest can be made.
abbrev pub Allowed : Env Call → Ptr → World Call Trfs → List Step → Type 0
Allowed env sb w [] = Unit {0}
Allowed env sb w (ask req ∷ steps) =
    Ready env sb w req
    × Fits req
    × ((err : ℤ) (w1 : World Call Trfs)
        → serve req env w ≡ some (err, w1)
        → Allowed env sb w1 steps)
Allowed env sb w (pass o ∷ steps) =
    (err : ℤ) × (w1 : World Call Trfs) × (serve_other o env w ≡ some (err, w1))
    × Allowed env sb w1 steps

-- A history of exactly these requests, from `w`.
record Histories (env : Env Call) (sb : Ptr) (w : World Call Trfs) (reqs : List Request)
    : Type 0 where
  after : World Call Trfs
  answered : List (Request × ℤ)
  asked : map (λ p. p.0) answered ≡ reqs
  history : History env sb w answered after

-- That, with what it has left in the log.
pub record Completed (env : Env Call) (sb f : Ptr) (umask : ℕ) (file : List ℕ) (w : World Call Trfs)
    (reqs : List Request) : Type 0 where
  pub after : World Call Trfs
  pub answered : List (Request × ℤ)
  pub asked : map (λ p. p.0) answered ≡ reqs
  pub history : History env sb w answered after
  pub told : Told env sb f umask file w.vars.trecord_id answered after

module _ (env : Env Call) (sb f : Ptr) (umask : ℕ) (healthy : IsHealthy env sb)
    (answers : Answers env) where
  -- the log behind a request
  log_after :
      (file : List ℕ) (w w1 : World Call Trfs) (req : Request) (err : ℤ)
      → Added env sb f umask file w.vars.trecord_id req err w1
      → (file1 : List ℕ) × LogIs sb f umask file1 w1
  log_after file w w1 req err (one r on is at counter) = (_, at)
  log_after file w w1 req err (nothing off at counter) = (_, at)

  -- The steps are made one after the other; each comes to its end.
  complete :
      (steps : List Step) (file : List ℕ) (w : World Call Trfs)
      → LogIs sb f umask file w
      → Allowed env sb w steps
      → Histories env sb w (asked_of steps)
  complete [] file w at p = record { after = w; answered = []; asked = refl; history = here w }
  complete (ask req ∷ steps) file w at (ready, fit, next) =
      let s = serve-Served env sb f umask file healthy answers w req at ready fit in
      let (file1, at1) = log_after file w s.after req s.err s.added in
      let rest = complete steps file1 s.after at1 (next s.err s.after s.runs) in
      record {
        after = rest.after;
        answered = (req, s.err) ∷ rest.answered;
        asked = ap (req ∷◌) rest.asked;
        history = logged req ready fit s.runs rest.history;
      }
  complete (pass o ∷ steps) file w at (err, w1, runs, next) =
      let same = serve_other-SameLog env f w o runs in
      let rest = complete steps file w1 (LogIs-SameLog sb f umask file w w1 at same) next in
      record {
        after = rest.after;
        answered = rest.answered;
        asked = rest.asked;
        history = other o runs rest.history;
      }

  -- On a healthy kernel, whose lower file system answers with an `int`, any sequence of requests
  -- comes to its end in which each logged one has, in the state that those before it have left, its
  -- objects ready and data that fit a record, and each other one comes to an end; and each logged
  -- one has its record in the log then, in order, if its bit in the mask is set.
  pub requests_complete :
      (steps : List Step) (file : List ℕ) (w : World Call Trfs)
      → LogIs sb f umask file w
      → Allowed env sb w steps
      → Completed env sb f umask file w (asked_of steps)
  requests_complete steps file w at p =
      let c = complete steps file w at p in
      record {
        after = c.after;
        answered = c.answered;
        asked = c.asked;
        history = c.history;
        told = History-Told env sb f umask healthy answers file at c.history;
      }
