-- ===== src/Requests/Image.antt =====
-- The log that requests leave is one that treplay reads back as the records of the requests.
use trace_file_system.Prelude.{
  ℕ, ◌<◌, ◌≤◌, ℤ, pos, ◌≡◌, sym, ◌==ℤ◌, true, false, Option, none, List, [], ◌∷◌, ◌++◌, ◌==◌, arith,
  length,
}
use mathlib.Core.Path.{subst}
use trace_file_system.Exec.{Env, World, Trace}
use trace_file_system.Record.{TrRecord, aux_chars, tr_fwrite, tr_symlink}
use trace_file_system.Kernel.{Ptr, Trfs, Call, dentry_path_raw}
use trace_file_system.Dump.Log.{log_file}
use trace_file_system.Dump.Switch.{IsHealthy, IsPathOf}
use trace_file_system.Replay.{Sys, Options}
use trace_file_system.Replay.Chunk.{replay_chunk}
use trace_file_system.Replay.RoundTrip.{NoNul, IsReplayable, replay_records}
use trace_file_system.Replay.Records.{AllReplayable}
use trace_file_system.Requests.{Request, entry}
use trace_file_system.Requests.Serve.{IsRecordOf}
use trace_file_system.Requests.History.{History, Tells, end, told, untold}

-- The paths of the kernel hold no NUL.
abbrev pub TextPaths : Env Call → Type 0
TextPaths env = (d p : Ptr) (t : Trace Call) → NoNul (env.bytes (dentry_path_raw d p) t)

-- The target of a symbolic link is a text that is not empty and fits the buffers of treplay.
abbrev pub HasTarget : Request → Type 0
HasTarget (Request.symlink_to dir d symname) =
    (1 ≤ length symname.chars) × NoNul symname.chars × (length symname.chars ≤ 4095)
HasTarget _ = Unit

abbrev pub AllTargets : List (Request × ℤ) → Type 0
AllTargets [] = Unit
AllTargets (q ∷ l) = HasTarget q.0 × AllTargets l

module _ (env : Env Call) (sb : Ptr) (healthy : IsHealthy env sb) (texts : TextPaths env) where
  path_ok : (d : Ptr) (s : List ℕ) → IsPathOf env d s → NoNul s × (length s ≤ 4095)
  path_ok d s is =
      subst (λ s. NoNul s × (length s ≤ 4095)) (sym is.said)
        (texts d is.page is.t, healthy.path_max d is.page is.t)

  module _ (id : ℕ) (err : ℤ) (r : TrRecord) where
    aux_none : r.aux ≡ none → NoNul (aux_chars r) × (length (aux_chars r) ≤ 4095)
    aux_none e = rw e (tt, omega arith)

    aux_ok :
        (req : Request)
        → HasTarget req
        → IsRecordOf env id req err r
        → (r.type == tr_fwrite) ≡ false
        → NoNul (aux_chars r) × (length (aux_chars r) ≤ 4095)
    aux_ok (Request.create dir d mode excl) h is e = aux_none is.carries
    aux_ok (Request.link_to old_d dir new_d) h is e = path_ok new_d (aux_chars r) is.carries
    aux_ok (Request.remove dir d) h is e = aux_none is.carries
    aux_ok (Request.symlink_to dir d symname) h is e = rw is.carries (h.1, h.2)
    aux_ok (Request.mkdir dir d mode) h is e = aux_none is.carries
    aux_ok (Request.rmdir dir d) h is e = aux_none is.carries
    aux_ok (Request.rename_to old_dir old_d new_dir new_d) h is e =
        path_ok new_d (aux_chars r) is.carries
    aux_ok (Request.write o buf ppos) h is e = absurd (ground (arith, is.describes.type))

    target_ok :
        (req : Request)
        → HasTarget req
        → IsRecordOf env id req err r
        → (r.type == tr_symlink) ≡ true
        → (r.aux_len ==ℤ pos 0) ≡ false
    target_ok (Request.symlink_to dir d symname) h is e =
        let len : r.aux_len ≡ pos (length symname.chars) =
          rw is.carries at is.describes.sized.aux_len in
        rw len (ground (arith, h.0))
    target_ok _ h is e = absurd (ground (arith, is.describes.type))

    record_ok : (req : Request) → HasTarget req → IsRecordOf env id req err r → IsReplayable r
    record_ok req h is =
        let (text, max) = path_ok (entry req).d is.path.chars is.path_of_d in
        record {
          ranges = is.describes.ranges;
          sized = is.describes.sized;
          path_text = rw is.describes.pathname text;
          path_max = rw is.describes.pathname max;
          aux_text = aux_ok req h is;
          target = target_ok req h is;
        }

  pub records_ok :
      (umask : ℕ) {id last : ℕ} {l : List (Request × ℤ)} {rs : List TrRecord}
      → AllTargets l
      → Tells env umask id l rs last
      → AllReplayable rs
  records_ok umask h (end id) = tt
  records_ok umask h (told {id = id} {req = req} {err = err} {r = r} on is rest) =
      (record_ok id err r req h.0 is, records_ok umask h.1 rest)
  records_ok umask h (untold off rest) = records_ok umask h.1 rest

-- The log holds records that tell the requests `l`, and treplay does on it what they say.
pub record Replayed (env : Env Call) (f : Ptr) (umask : ℕ) (id : ℕ) (l : List (Request × ℤ))
    (w' : World Call Trfs) : Type 0 where
  pub records : List TrRecord
  pub tells : Tells env umask id l records w'.vars.trecord_id
  pub replays :
      (o : Options) (back : List ℕ) (fuel : ℕ) (err : ℤ) (auxpath : Option (List ℕ)) (sys : Env Sys)
      (s : World Sys (Unit {0}))
      → length records < fuel
      → replay_chunk fuel o
          (log_file f w'.trace ++ back)
          (length (log_file f w'.trace))
          0
          err
          auxpath
          sys
          s
        ≡ replay_records o records err auxpath sys s
