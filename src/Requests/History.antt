-- ===== src/Requests/History.antt =====
-- What stands in the log after any sequence of requests.
use trace_file_system.Prelude.{
  ℕ, ◌+◌, ◌%◌, ◌^◌, ℤ, ◌≡◌, sym, ◌∙◌, some, List, [], ◌∷◌, ◌++◌, append_assoc, append-nil, bit_and,
  some-injective,
}
use mathlib.Core.Path.{subst}
use trace_file_system.Exec.{Env, World}
use trace_file_system.Record.{TrRecord}
use trace_file_system.Record.Layout.{image}
use trace_file_system.Kernel.{Ptr, Trfs, Call}
use trace_file_system.Dump.Fill.{type_of}
use trace_file_system.Dump.Log.{LogIs}
use trace_file_system.Dump.Switch.{IsHealthy}
use trace_file_system.Replay.RoundTrip.{images}
use trace_file_system.Inode.Traced.{LogIs-SameLog}
use trace_file_system.Requests.{Request, Other, entry, serve, serve_other}
use trace_file_system.Requests.Quiet.{serve_other-SameLog}
use trace_file_system.Requests.Ready.{Answers, Ready, Fits}
use trace_file_system.Requests.Serve.{Added, one, nothing, IsRecordOf, serve-Served}

-- The kernel has made the requests of a list, of those that are logged, each with its result, and
-- any others between them; every one of them has come to its end.
pub data History (env : Env Call) (sb : Ptr)
    : World Call Trfs → List (Request × ℤ) → World Call Trfs → Type 0 where
  here : (w : World Call Trfs) → History env sb w [] w
  logged :
      {w w1 w' : World Call Trfs} {err : ℤ} {l : List (Request × ℤ)} (req : Request)
      → Ready env sb w req
      → Fits req
      → serve req env w ≡ some (err, w1)
      → History env sb w1 l w'
      → History env sb w ((req, err) ∷ l) w'
  other :
      {w w1 w' : World Call Trfs} {err : ℤ} {l : List (Request × ℤ)} (o : Other)
      → serve_other o env w ≡ some (err, w1)
      → History env sb w1 l w'
      → History env sb w l w'

-- The records of requests, those whose bit in the mask is set, in order; the counter goes from the
-- first number to the last.
pub data Tells (env : Env Call) (umask : ℕ)
    : ℕ → List (Request × ℤ) → List TrRecord → ℕ → Type 0 where
  end : (id : ℕ) → Tells env umask id [] [] id
  told :
      {id last : ℕ} {req : Request} {err : ℤ} {l : List (Request × ℤ)} {r : TrRecord}
      {rs : List TrRecord}
      → bit_and (type_of (entry req).op) umask ≡ type_of (entry req).op
      → IsRecordOf env id req err r
      → Tells env umask ((id + 1) % 2 ^ 32) l rs last
      → Tells env umask id ((req, err) ∷ l) (r ∷ rs) last
  untold :
      {id last : ℕ} {req : Request} {err : ℤ} {l : List (Request × ℤ)} {rs : List TrRecord}
      → bit_and (type_of (entry req).op) umask ≡ 0
      → Tells env umask id l rs last
      → Tells env umask id ((req, err) ∷ l) rs last

-- The log is `file` and the images of whole records behind it, which tell the requests `l`.
pub record Told (env : Env Call) (sb f : Ptr) (umask : ℕ) (file : List ℕ) (id : ℕ)
    (l : List (Request × ℤ)) (w' : World Call Trfs) : Type 0 where
  pub records : List TrRecord
  pub tells : Tells env umask id l records w'.vars.trecord_id
  pub at : LogIs sb f umask (file ++ images records) w'

module _ (env : Env Call) (sb f : Ptr) (umask : ℕ) where
  module _ (file : List ℕ) (w1 w' : World Call Trfs) (id : ℕ) (req : Request) (err : ℤ)
      (l : List (Request × ℤ)) where
    tell_one :
        (r : TrRecord)
        → bit_and (type_of (entry req).op) umask ≡ type_of (entry req).op
        → IsRecordOf env id req err r
        → w1.vars.trecord_id ≡ (id + 1) % 2 ^ 32
        → Told env sb f umask (file ++ image r) w1.vars.trecord_id l w'
        → Told env sb f umask file id ((req, err) ∷ l) w'
    tell_one r on is counter rest = record {
      records = r ∷ rest.records;
      tells =
          told on is
            (subst (λ n. Tells env umask n l rest.records w'.vars.trecord_id) counter rest.tells);
      at =
          subst (λ file. LogIs sb f umask file w')
            (append_assoc file (image r) (images rest.records)) rest.at;
    }

    tell_nothing :
        bit_and (type_of (entry req).op) umask ≡ 0
        → w1.vars.trecord_id ≡ id
        → Told env sb f umask file w1.vars.trecord_id l w'
        → Told env sb f umask file id ((req, err) ∷ l) w'
    tell_nothing off counter rest = record {
      records = rest.records;
      tells =
          untold off
            (subst (λ n. Tells env umask n l rest.records w'.vars.trecord_id) counter rest.tells);
      at = rest.at;
    }

  -- what the next request adds, in front of what the rest does
  tell-Added :
      (file : List ℕ) (w1 w' : World Call Trfs) (id : ℕ) (req : Request) (err : ℤ)
      (l : List (Request × ℤ))
      → ((file : List ℕ)
          → LogIs sb f umask file w1
          → Told env sb f umask file w1.vars.trecord_id l w')
      → Added env sb f umask file id req err w1
      → Told env sb f umask file id ((req, err) ∷ l) w'
  tell-Added file w1 w' id req err l rest (one r on is at counter) =
      tell_one file w1 w' id req err l r on is counter (rest (file ++ image r) at)
  tell-Added file w1 w' id req err l rest (nothing off at counter) =
      tell_nothing file w1 w' id req err l off counter (rest file at)

  -- On a healthy kernel, whose lower file system answers with an `int`, whatever requests have been
  -- made and have come to an end, each with objects that are ready for it and with data that fit a
  -- record, the log holds what was in it and then whole records: one for each request whose bit in
  -- the mask is set, in order, with consecutive numbers; the position is at its end and the mount
  -- is as it was.
  pub History-Told :
      IsHealthy env sb
      → Answers env
      → (file : List ℕ) {w w' : World Call Trfs} {l : List (Request × ℤ)} → LogIs sb f umask file w
      → History env sb w l w'
      → Told env sb f umask file w.vars.trecord_id l w'
  History-Told healthy answers file at (here w) = record {
    records = [];
    tells = end w.vars.trecord_id;
    at = subst (λ file. LogIs sb f umask file w) (sym (append-nil file)) at;
  }
  History-Told healthy answers file {w} {w'} at
        (logged {w1 = w1} {err = err} {l = l} req ready fits runs rest) =
      let s = serve-Served env sb f umask file healthy answers w req at ready fits in
      tell-Added file w1 w' w.vars.trecord_id req err l
        (λ file at. History-Told healthy answers file at rest)
        (subst (λ p. Added env sb f umask file w.vars.trecord_id req p.0 p.1)
          (some-injective _ _ (sym s.runs ∙ runs)) s.added)
  History-Told healthy answers file {w} {w'} at (other {w1 = w1} {l = l} o runs rest) =
      let same = serve_other-SameLog env f w o runs in
      subst (λ n. Told env sb f umask file n l w') same.2
        (History-Told healthy answers file (LogIs-SameLog sb f umask file w w1 at same) rest)
