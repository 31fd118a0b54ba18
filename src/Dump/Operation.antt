-- ===== src/Dump/Operation.antt =====
-- `log_operation` as a whole: what one operation adds to the log.
use trace_file_system.Prelude.{
  ℕ, ◌+◌, ◌%◌, ◌^◌, ◌≤◌, ℤ, pos, ◌≡◌, refl, ◌∙◌, ap, false, Option, some, List, ◌∷◌, ◌++◌, arith,
  length, ◌==◌, IsInt, bit_and,
}
use trace_file_system.Exec.{Trace, Env, World, ◌>>=◌}
use trace_file_system.Record.{TrRecord, Chars, chars_of}
use trace_file_system.Record.Layout.{image}
use trace_file_system.Kernel.{
  Ptr, Trfs, Call, get_free_page, dentry_path_raw, mutex_lock, mutex_unlock,
}
use trace_file_system.Kernel.Path.{Kernel}
use trace_file_system.Dump.{
  Aux, aux_memory, Filled, filled, start, fill_by_type, fill_record, append_record, log_operation,
  append_if_filled,
}
use trace_file_system.Dump.Fill.{
  Operation, type_of, fcreat, second_page, switch_at, path_at, page_trace,
}
use trace_file_system.Dump.Fields.{Describes, fill_record-Describes}
use trace_file_system.Dump.Log.{LogIs, log_file}
use trace_file_system.Dump.Append.{append_record-Leads}
use trace_file_system.Dump.Switch.{IsHealthy, Suits, Carries, fill_by_type-Switched}

-- The run `m` has added one record, which describes the operation on the dentry `d`: its path is
-- what the kernel said of `d` at a time `t` of the run.
pub record Logged (env : Env Call) (m : Option (Unit {0} × World Call Trfs)) (sb f : Ptr)
    (umask : ℕ) (file : List ℕ) (op : Operation) (d : Ptr) (flags perm_flags err : ℤ) (aux : Aux)
    (id : ℕ) : Type 0 where
  pub r : TrRecord
  pub path : Chars
  pub after : World Call Trfs
  pub page : Ptr
  pub t : Trace Call
  pub runs : m ≡ some (tt, after)
  pub describes : Describes op flags perm_flags err id path r
  pub path_of_d : path.chars ≡ env.bytes (dentry_path_raw d page) t
  pub carries : Carries env aux r
  pub at : LogIs sb f umask (file ++ image r) after
  pub counter : after.vars.trecord_id ≡ id

fill_append_runs :
    (env : Env Call) (w w1 w2 : World Call Trfs) (sb : Ptr) (m : Kernel Filled) (r : TrRecord)
    (ret : ℤ)
    → m env w ≡ some (filled r, w1)
    → append_record sb r env w1 ≡ some (ret, w2)
    → (m >>= append_if_filled sb) env w ≡ some (tt, w2)
unfolding append_if_filled
fill_append_runs env w w1 w2 sb m r ret h k = ground arith

type_of-ne-zero : (op : Operation) → (type_of op == 0) ≡ false
type_of-ne-zero fcreat = refl
type_of-ne-zero _ = refl

-- The lock, taken and released, is not in the log.
pub mutex-LogIs :
    (sb f : Ptr) (umask : ℕ) (file : List ℕ) (w : World Call Trfs) (p : Ptr) (x : ℤ)
    → LogIs sb f umask file w
    → LogIs sb f umask file (record w { trace = (mutex_lock p, x) ∷ w.trace })
      × LogIs sb f umask file (record w { trace = (mutex_unlock p, x) ∷ w.trace })
unfolding log_file
mutex-LogIs sb f umask file w p x at = (
  record {
    info = at.info;
    mounted = at.mounted;
    filep = at.filep;
    mask = at.mask;
    f_pos = at.f_pos;
    content = at.content;
  },
  record {
    info = at.info;
    mounted = at.mounted;
    filep = at.filep;
    mask = at.mask;
    f_pos = at.f_pos;
    content = at.content;
  },
)

module _ (env : Env Call) (sb f : Ptr) (umask : ℕ) (file : List ℕ) (healthy : IsHealthy env sb)
    (d : Ptr) (flags perm_flags err : ℤ) where
  fill_record_filled :
      (w : World Call Trfs) (type : ℕ) (aux : Aux) (aux_len : ℤ) (r : TrRecord)
      (w' : World Call Trfs)
      → (type == 0) ≡ false
      → fill_by_type type aux aux_len
          (second_page env w d)
          (start type flags perm_flags err ((w.vars.trecord_id + 1) % 2 ^ 32) (path_at env w d))
          env
          (switch_at env w d)
        ≡ some (r, w')
      → fill_record type d flags perm_flags err aux aux_len env w ≡ some (filled r, w')
  unfolding fill_record
  fill_record_filled w type aux aux_len r w' t h = ground (
    arith,
    healthy.page w.trace,
    healthy.page ((get_free_page, env.reply get_free_page w.trace) ∷ w.trace),
    healthy.path d (env.reply get_free_page w.trace) (page_trace env w d),
  )

  switch_at-log_file :
      (w : World Call Trfs) → log_file f (switch_at env w d).trace ≡ log_file f w.trace
  unfolding log_file
  switch_at-log_file w = refl

  -- A state with the same superblocks and the same log.
  LogIs_same :
      (w w' : World Call Trfs)
      → LogIs sb f umask file w
      → w'.vars.s_fs_info ≡ w.vars.s_fs_info
      → log_file f w'.trace ≡ log_file f w.trace
      → LogIs sb f umask file w'
  LogIs_same w w' at v l = record {
    info = at.info;
    mounted = ap (λ g. g sb) v ∙ at.mounted;
    filep = at.filep;
    mask = at.mask;
    f_pos = at.f_pos;
    content = l ∙ at.content;
  }

  module _ (op : Operation) (aux : Aux) (suits : Suits op aux) (he : IsInt err) where
    -- filled in and appended, between the lock and the unlock
    fill_append :
        (w : World Call Trfs)
        → LogIs sb f umask file w
        → Logged env
            ((fill_record
                  (type_of op)
                  d
                  flags
                  perm_flags
                  err
                  aux
                  (pos (length (chars_of (aux_memory aux))))
                >>= append_if_filled sb)
              env w)
            sb
            f
            umask
            file
            op
            d
            flags
            perm_flags
            err
            aux
            ((w.vars.trecord_id + 1) % 2 ^ 32)
    fill_append w at =
        let id : ℕ = (w.vars.trecord_id + 1) % 2 ^ 32 in
        let path : Chars = path_at env w d in
        let path_max : length path.chars ≤ 4095 = healthy.path_max d _ _ in
        let sw =
          fill_by_type-Switched env sb f healthy (switch_at env w d) (second_page env w d)
            (start (type_of op) flags perm_flags err id path) op aux suits refl in
        let filled_eq =
          fill_record_filled w (type_of op) aux (pos (length (chars_of (aux_memory aux)))) sw.r
            sw.after (type_of-ne-zero op) sw.runs in
        let (describes, vars) =
          fill_record-Describes op env w d flags perm_flags err aux filled_eq
            (omega (arith, ap (λ p. length p.chars) sw.path, sw.aux_max, path_max)) he in
        let at' =
          LogIs_same w sw.after at (ap (λ v. v.s_fs_info) vars) (sw.log ∙ switch_at-log_file w) in
        let led =
          append_record-Leads env sb f umask healthy.full sw.after file sw.r healthy.trfs at'
            describes.sized sw.has_aux in
        record {
          r = sw.r;
          path = path;
          after = led.after;
          page = env.reply get_free_page w.trace;
          t = page_trace env w d;
          path_of_d = refl;
          carries = sw.carries;
          runs =
              fill_append_runs env w sw.after led.after sb
                (fill_record (type_of op) d flags perm_flags err aux
                  (pos (length (chars_of (aux_memory aux)))))
                sw.r led.ret filled_eq led.runs;
          describes = describes;
          at = led.at;
          counter = led.counter ∙ ap (λ v. v.trecord_id) vars;
        }

    locked_runs :
        (w w2 : World Call Trfs)
        → LogIs sb f umask file w
        → bit_and (type_of op) umask ≡ type_of op
        → (fill_record
                (type_of op)
                d
                flags
                perm_flags
                err
                aux
                (pos (length (chars_of (aux_memory aux))))
              >>= append_if_filled sb)
            env
            (record w { trace = (mutex_lock sb, env.reply (mutex_lock sb) w.trace) ∷ w.trace })
          ≡ some (tt, w2)
        → log_operation sb
            (type_of op)
            d
            flags
            perm_flags
            err
            aux
            (pos (length (chars_of (aux_memory aux))))
            env
            w
          ≡ some (
            tt,
            record w2 {
              trace = (mutex_unlock sb, env.reply (mutex_unlock sb) w2.trace) ∷ w2.trace;
            },
          )
    unfolding log_operation
    locked_runs w w2 at on h = ground arith

    pub log_operation_on :
        (w : World Call Trfs)
        → LogIs sb f umask file w
        → bit_and (type_of op) umask ≡ type_of op
        → Logged env
            (log_operation sb
              (type_of op)
              d
              flags
              perm_flags
              err
              aux
              (pos (length (chars_of (aux_memory aux))))
              env
              w)
            sb
            f
            umask
            file
            op
            d
            flags
            perm_flags
            err
            aux
            ((w.vars.trecord_id + 1) % 2 ^ 32)
    log_operation_on w at on =
        let locked : World Call Trfs = record w {
          trace = (mutex_lock sb, env.reply (mutex_lock sb) w.trace) ∷ w.trace;
        } in
        let logged = fill_append locked (mutex-LogIs sb f umask file w sb _ at).0 in
        record {
          r = logged.r;
          path = logged.path;
          page = logged.page;
          t = logged.t;
          after = record logged.after {
            trace =
                (mutex_unlock sb, env.reply (mutex_unlock sb) logged.after.trace)
                ∷ logged.after.trace;
          };
          runs = locked_runs w logged.after at on logged.runs;
          describes = logged.describes;
          path_of_d = logged.path_of_d;
          carries = logged.carries;
          at = (mutex-LogIs sb f umask _ logged.after sb _ logged.at).1;
          counter = logged.counter;
        }
