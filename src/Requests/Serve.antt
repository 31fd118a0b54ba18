-- ===== src/Requests/Serve.antt =====
-- What a request that is logged adds to the log.
use trace_file_system.Prelude.{
  ℕ, ◌+◌, ◌%◌, ◌^◌, ℤ, ◌≡◌, ◌⊎◌, inl, inr, refl, ◌∙◌, ap, some, List, ◌++◌, bit_and,
}
use trace_file_system.Exec.{Env, World}
use trace_file_system.Record.{TrRecord, Chars}
use trace_file_system.Record.Layout.{image}
use trace_file_system.Kernel.{Ptr, Trfs, Call, mutex_lock, mutex_unlock}
use trace_file_system.Dump.Fill.{
  Operation, type_of, fcreat, fwrite, dcreat, rename, link, symlink, unlink,
}
use trace_file_system.Dump.Fields.{Describes}
use trace_file_system.Dump.Log.{LogIs, log_file}
use trace_file_system.Dump.Mask.{bit_and-pow, log_operation_off}
use trace_file_system.Dump.Switch.{IsHealthy, Carries, IsPathOf}
use trace_file_system.Lookup.Interpose.{SameLog}
use trace_file_system.Inode.Traced.{Handled, Handled-Traced, LogIs-SameLog, called}
use trace_file_system.Requests.{Request, Entry, entry, serve}
use trace_file_system.Requests.Ready.{Answers, Ready, Fits, serve-Handled}

-- A bit of the mask is clear or set.
mask_cases :
    (op : Operation) (m : ℕ) → (bit_and (type_of op) m ≡ 0) ⊎ (bit_and (type_of op) m ≡ type_of op)
mask_cases fcreat m = bit_and-pow 0 m
mask_cases fwrite m = bit_and-pow 2 m
mask_cases dcreat m = bit_and-pow 10 m
mask_cases rename m = bit_and-pow 20 m
mask_cases link m = bit_and-pow 21 m
mask_cases symlink m = bit_and-pow 22 m
mask_cases unlink m = bit_and-pow 23 m

-- `r` is the record of a request that was answered with `err`, where the counter was at `id`: it
-- describes the operation and its result, and has the next number, the path of the dentry at the
-- time and the auxiliary data of the request.
pub record IsRecordOf (env : Env Call) (id : ℕ) (req : Request) (err : ℤ) (r : TrRecord)
    : Type 0 where
  pub path : Chars
  pub describes :
      Describes
        (entry req).op
        (entry req).flags
        (entry req).perm_flags
        err
        ((id + 1) % 2 ^ 32)
        path
        r
  pub path_of_d : IsPathOf env (entry req).d path.chars
  pub carries : Carries env (entry req).aux r

-- What one request has added to the log: its record, or nothing if its bit in the mask is clear.
pub data Added (env : Env Call) (sb f : Ptr) (umask : ℕ) (file : List ℕ) (id : ℕ) (req : Request)
    (err : ℤ) (w' : World Call Trfs) : Type 0 where
  one :
      (r : TrRecord)
      → bit_and (type_of (entry req).op) umask ≡ type_of (entry req).op
      → IsRecordOf env id req err r
      → LogIs sb f umask (file ++ image r) w'
      → w'.vars.trecord_id ≡ (id + 1) % 2 ^ 32
      → Added env sb f umask file id req err w'
  nothing :
      bit_and (type_of (entry req).op) umask ≡ 0
      → LogIs sb f umask file w'
      → w'.vars.trecord_id ≡ id
      → Added env sb f umask file id req err w'

-- A run of a request, with what it has added.
pub record Served (env : Env Call) (sb f : Ptr) (umask : ℕ) (file : List ℕ) (w : World Call Trfs)
    (req : Request) : Type 0 where
  pub err : ℤ
  pub after : World Call Trfs
  pub runs : serve req env w ≡ some (err, after)
  pub added : Added env sb f umask file w.vars.trecord_id req err after

module _ (env : Env Call) (sb f : Ptr) (umask : ℕ) (file : List ℕ) (w : World Call Trfs)
    (req : Request) where
  -- the state behind the code that logs, if it logs nothing
  abbrev passed : World Call Trfs → World Call Trfs
  passed v = called env (mutex_unlock sb) (called env (mutex_lock sb) v)

  passed-SameLog : (v : World Call Trfs) → SameLog f v (passed v)
  unfolding log_file
  passed-SameLog v = (refl, refl, refl)

  served_off :
      (h : Handled env
        (serve req env w)
        sb
        f
        (entry req).op
        (entry req).d
        (entry req).flags
        (entry req).perm_flags
        (entry req).aux
        w)
      → LogIs sb f umask file w
      → bit_and (type_of (entry req).op) umask ≡ 0
      → Served env sb f umask file w req
  served_off h at off =
      let at1 = LogIs-SameLog sb f umask file w h.w1 at h.same in
      let quiet = passed-SameLog h.w1 in
      let last = h.fin (passed h.w1) in
      record {
        err = h.err;
        after = h.finish (passed h.w1);
        runs = h.runs (passed h.w1) (
            log_operation_off env h.w1 sb at1.info (type_of (entry req).op) (entry req).d
              (entry req).flags (entry req).perm_flags h.err (entry req).aux _ at1.mounted
              (ap (bit_and (type_of (entry req).op)) at1.mask ∙ off));
        added =
            Added.nothing off
              (LogIs-SameLog sb f umask file (passed h.w1) (h.finish (passed h.w1))
                (LogIs-SameLog sb f umask file h.w1 (passed h.w1) at1 quiet) last)
              (last.2 ∙ quiet.2 ∙ h.same.2);
      }

  served_on :
      IsHealthy env sb
      → Fits req
      → Handled env
          (serve req env w)
          sb
          f
          (entry req).op
          (entry req).d
          (entry req).flags
          (entry req).perm_flags
          (entry req).aux
          w
      → LogIs sb f umask file w
      → bit_and (type_of (entry req).op) umask ≡ type_of (entry req).op
      → Served env sb f umask file w req
  served_on healthy fits h at on =
      let e : Entry = entry req in
      let t =
        Handled-Traced env sb f e.op e.d e.flags e.perm_flags e.aux (serve req env w) w umask file
          healthy fits at on h in
      record {
        err = t.err;
        after = t.after;
        runs = t.runs;
        added =
            Added.one t.r on
              (record {
                path = t.path;
                describes = t.describes;
                path_of_d = record { page = t.page; t = t.t; said = t.path_of_d };
                carries = t.carries;
              })
              t.at t.counter;
      }

-- On a healthy kernel, whose lower file system answers with an `int`, take a request that is
-- logged, whose objects are ready (private data, and inodes of the mount where the handler reads
-- them, which for a symbolic link is the inode behind the work of the lower file system), and whose
-- data fit a record. It always comes to an end, whatever other `int` the lower file system answers;
-- the log is then longer by its record if its bit in the mask is set, and is as it was otherwise.
pub serve-Served :
    (env : Env Call) (sb f : Ptr) (umask : ℕ) (file : List ℕ)
    → IsHealthy env sb
    → Answers env
    → (w : World Call Trfs) (req : Request) → LogIs sb f umask file w
    → Ready env sb w req
    → Fits req
    → Served env sb f umask file w req
serve-Served env sb f umask file healthy answers w req at ready fits =
    let h = serve-Handled env sb f answers w at.info at.mounted req ready in
    elim (mask_cases (entry req).op umask) [
      | inl off ↦ served_off env sb f umask file w req h at off
      | inr on ↦ served_on env sb f umask file w req healthy fits h at on
    ]
