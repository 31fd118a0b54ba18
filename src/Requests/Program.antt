-- ===== src/Requests/Program.antt =====
-- From the mount to the end of treplay as a program.
use trace_file_system.Prelude.{
  ℕ, suc, ◌≤◌, ℤ, pos, ◌≡◌, ap, sym, ◌∙◌, Option, some, some-injective, List, [], length,
}
use mathlib.Core.Path.{subst}
use trace_file_system.Exec.{Env, World}
use trace_file_system.Record.{TrRecord}
use trace_file_system.Kernel.{Ptr, SbInfo, Trfs, Call}
use trace_file_system.Dump.Log.{log_file}
use trace_file_system.Dump.Switch.{IsHealthy}
use trace_file_system.Mount.{trfs_read_super, all_bits}
use trace_file_system.Mount.Fresh.{NoWrites, OpensPointers, trfs_read_super-IsFresh}
use trace_file_system.Replay.{Sys, Options}
use trace_file_system.Replay.Main.{chunk_size, replay_main}
use trace_file_system.Replay.RoundTrip.{images}
use trace_file_system.Replay.Program.{replay_log, HoldsLog, replay_main-records}
use trace_file_system.Requests.{Request}
use trace_file_system.Requests.Ready.{Answers}
use trace_file_system.Requests.History.{History, Tells, Told, History-Told}
use trace_file_system.Requests.Image.{TextPaths, AllTargets, records_ok}
use trace_file_system.Requests.Session.{length-Tells}

-- There are records that tell the requests `l`, one for each, and the run `m` of treplay does what
-- they say.
pub record IsReplayed (env : Env Call) (id : ℕ) (l : List (Request × ℤ)) (w' : World Call Trfs)
    (sys : Env Sys) (s : World Sys (Unit {0})) (o : Options) (tfile : List ℕ) (fd : ℕ)
    (m : Option (ℤ × World Sys (Unit {0}))) : Type 0 where
  pub records : List TrRecord
  pub tells : Tells env all_bits id l records w'.vars.trecord_id
  pub one_each : length records ≡ length l
  pub runs : m ≡ replay_log o tfile (pos fd) records sys s

-- The log of the superblock's data `info`
log_images :
    (env : Env Call) (sb f : Ptr) (umask id : ℕ) (l : List (Request × ℤ)) (w' : World Call Trfs)
    (info : SbInfo) (t : Told env sb f umask [] id l w')
    → w'.vars.s_fs_info sb ≡ some info
    → log_file info.tr_lower_filep w'.trace ≡ images t.records
log_images env sb f umask id l w' info t at =
    let same : info ≡ t.at.info = some-injective _ _ (sym at ∙ t.at.mounted) in
    ap (λ i. log_file i.tr_lower_filep w'.trace) same
    ∙ ap (λ g. log_file g w'.trace) t.at.filep
    ∙ t.at.content

-- On a healthy kernel whose paths are texts, whose lower file system answers with an `int` and which
-- opens files with pointers or error numbers: a mount that returns 0, where nothing has been written
-- to a file before, and then any requests on it, each with objects that are ready and data that fit
-- a record, where the targets of symbolic links fit treplay's buffers. If the log then holds 1 to
-- 16384 bytes, and treplay finds them in its file, it does, from `stat` to `exit`, what the records
-- of these requests say, one for each request that is logged.
pub mount_to_replay :
    (env : Env Call) (sb : Ptr) (dev option : Option (List ℕ)) (w w1 w2 : World Call Trfs)
    (l : List (Request × ℤ)) (info : SbInfo) (sys : Env Sys) (s : World Sys (Unit {0}))
    (o : Options) (tfile : List ℕ) (garbage : ℕ → List ℕ) (fd fuel : ℕ)
    → IsHealthy env sb
    → TextPaths env
    → Answers env
    → OpensPointers env
    → NoWrites w
    → trfs_read_super sb dev option env w ≡ some (pos 0, w1)
    → AllTargets l
    → History env sb w1 l w2
    → w2.vars.s_fs_info sb ≡ some info
    → 1 ≤ length (log_file info.tr_lower_filep w2.trace)
    → length (log_file info.tr_lower_filep w2.trace) ≤ chunk_size
    → ((n : ℕ) → length (garbage n) ≡ n)
    → HoldsLog sys tfile fd (log_file info.tr_lower_filep w2.trace) s
    → IsReplayed env w1.vars.trecord_id l w2 sys s o tfile fd
        (replay_main (suc (suc fuel)) o tfile garbage sys s)
mount_to_replay env sb dev option w w1 w2 l info sys s o tfile garbage fd fuel healthy texts answers
      opens empty mount targets history at some_bytes fits buffer file =
    let fresh = trfs_read_super-IsFresh env sb dev option w opens empty mount in
    let t = History-Told env sb fresh.f all_bits healthy answers [] fresh.at history in
    let log = log_images env sb fresh.f all_bits w1.vars.trecord_id l w2 info t at in
    record {
      records = t.records;
      tells = t.tells;
      one_each = length-Tells env t.tells;
      runs =
          replay_main-records sys s o tfile garbage fd fuel t.records buffer
            (records_ok env sb healthy texts all_bits targets t.tells)
            (subst (λ b. 1 ≤ length b) log some_bytes) (subst (λ b. length b ≤ chunk_size) log fits)
            (subst (λ b. HoldsLog sys tfile fd b s) log file);
    }
