-- ===== src/Inode/Traced.antt =====
-- How every handler stands to the log: a lemma that puts its three parts together, and the states
-- around the work of a handler that locks the lower parent.
use trace_file_system.Prelude.{
  ℕ, ℤ, pos, ◌≡◌, ◌≢◌, refl, ◌∙◌, ap, ◌==ℤ◌, ◌+◌, ◌%◌, ◌^◌, true, false, Option, some, none, IsInt,
  Option-cases, inl, inr, List, ◌∷◌, ◌++◌, bit_and, length,
}
use mathlib.Core.Path.{subst}
use trace_file_system.Exec.{Env, World, Trace}
use trace_file_system.Record.{TrRecord, Chars, chars_of}
use trace_file_system.Record.Layout.{image}
use trace_file_system.Kernel.{
  Ptr, null, KPath, Trfs, Call, d_inode, i_sb, dentry_path_raw, inode_unlock, dput, path_put,
  inode_lock, dget_parent, spin_lock, spin_unlock, path_get,
}
use trace_file_system.Dump.{Aux, aux_memory, log_operation}
use trace_file_system.Dump.Fill.{Operation, type_of}
use trace_file_system.Dump.Fields.{Describes}
use trace_file_system.Dump.Log.{LogIs, log_file}
use trace_file_system.Dump.Switch.{IsHealthy, Suits, Carries}
use trace_file_system.Dump.Operation.{log_operation_on}
use trace_file_system.Lookup.Interpose.{SameLog}

-- The directory `dir` is of the mount `sb`.
pub record IsMounted (env : Env Call) (sb dir : Ptr) : Type 0 where
  pub dir_inode : (dir ==ℤ null) ≡ false
  pub dir_super : (t : Trace Call) → env.reply (i_sb dir) t ≡ sb

-- The state after a call.
abbrev pub called : Env Call → Call → World Call Trfs → World Call Trfs
called env c w = record w { trace = (c, env.reply c w.trace) ∷ w.trace }

-- In the state `w` the dentry `d` has an inode, which is of the mount `sb`.
pub record InSuperAt (env : Env Call) (sb d : Ptr) (w : World Call Trfs) : Type 0 where
  pub inode : (env.reply (d_inode d) w.trace ==ℤ null) ≡ false
  pub super : env.reply (i_sb (env.reply (d_inode d) w.trace)) w.trace ≡ sb

-- In the state `w` the dentry `d` has an inode of trfs, and that has a lower one.
pub record HasLowerAt (env : Env Call) (w : World Call Trfs) (d : Ptr) : Type 0 where
  pub inode : (env.reply (d_inode d) w.trace ==ℤ null) ≡ false
  pub lower : (w.vars.lower_inode (env.reply (d_inode d) w.trace) ==ℤ null) ≡ false

-- The call `c` of the lower file system, which makes an object at the dentry `d`, returns an `int`,
-- and if that is 0 the dentry has an inode.
pub record MakesAt (env : Env Call) (c : Call) (d : Ptr) : Type 0 where
  pub int : (t : Trace Call) → IsInt (env.reply c t)
  pub inode :
      (t : Trace Call)
      → (env.reply c t ==ℤ pos 0) ≡ true
      → (env.reply (d_inode d) ((c, env.reply c t) ∷ t) ==ℤ null) ≡ false

-- The handler's run `m` has ended with `err`, and has added one record to the log: that of the
-- operation on `d` with the result `err`.
pub record Traced (env : Env Call) (m : Option (ℤ × World Call Trfs)) (sb f : Ptr) (umask : ℕ)
    (file : List ℕ) (op : Operation) (d : Ptr) (flags perm_flags : ℤ) (aux : Aux) (id : ℕ)
    : Type 0 where
  pub err : ℤ
  pub r : TrRecord
  pub path : Chars
  pub after : World Call Trfs
  pub page : Ptr
  pub t : Trace Call
  pub runs : m ≡ some (err, after)
  pub describes : Describes op flags perm_flags err id path r
  pub path_of_d : path.chars ≡ env.bytes (dentry_path_raw d page) t
  pub carries : Carries env aux r
  pub at : LogIs sb f umask (file ++ image r) after
  pub counter : after.vars.trecord_id ≡ id

-- The log of a state that differs in no write to `f`, and in nothing that trfs keeps of `sb`.
pub LogIs-SameLog :
    (sb f : Ptr) (umask : ℕ) (file : List ℕ) (w w' : World Call Trfs)
    → LogIs sb f umask file w
    → SameLog f w w'
    → LogIs sb f umask file w'
LogIs-SameLog sb f umask file w w' at same = record {
  info = at.info;
  mounted = ap (λ g. g sb) same.1 ∙ at.mounted;
  filep = at.filep;
  mask = at.mask;
  f_pos = at.f_pos;
  content = same.0 ∙ at.content;
}

module _ (env : Env Call) (d : Ptr) (path : KPath) where
  -- when the lower path is taken and the parent is locked, with the parent
  abbrev pub lower_parent : World Call Trfs → Ptr
  lower_parent w = env.reply (dget_parent path.dentry) (
      let t1 = (spin_lock d, env.reply (spin_lock d) w.trace) ∷ w.trace in
      let t2 = (path_get path, env.reply (path_get path) t1) ∷ t1 in
      (spin_unlock d, env.reply (spin_unlock d) t2) ∷ t2)

  abbrev pub locked : World Call Trfs → World Call Trfs
  locked w =
      let t1 = (spin_lock d, env.reply (spin_lock d) w.trace) ∷ w.trace in
      let t2 = (path_get path, env.reply (path_get path) t1) ∷ t1 in
      let t3 = (spin_unlock d, env.reply (spin_unlock d) t2) ∷ t2 in
      let t4 = (dget_parent path.dentry, lower_parent w) ∷ t3 in
      let inode = env.reply (d_inode (lower_parent w)) t4 in
      record w { trace = (inode_lock inode, env.reply (inode_lock inode) t4) ∷ t4 }

  -- when the parent is unlocked and the lower path given back
  abbrev pub unlocked : Ptr → World Call Trfs → World Call Trfs
  unlocked parent w =
      let inode = env.reply (d_inode parent) w.trace in
      let t1 = (inode_unlock inode, env.reply (inode_unlock inode) w.trace) ∷ w.trace in
      let t2 = (dput parent, env.reply (dput parent) t1) ∷ t1 in
      record w { trace = (path_put path, env.reply (path_put path) t2) ∷ t2 }

  pub locked-SameLog : (f : Ptr) (w : World Call Trfs) → SameLog f w (locked w)
  unfolding log_file
  locked-SameLog f w = (refl, refl, refl)

  pub unlocked-SameLog : (f parent : Ptr) (w : World Call Trfs) → SameLog f w (unlocked parent w)
  unfolding log_file
  unlocked-SameLog f parent w = (refl, refl, refl)

-- A handler whose run from `w` is `m`: it works up to the state `w1` and leaves the log alone, passes
-- its result `err` to the log, and does `finish` behind that, which leaves the log alone too.
pub record Handled (env : Env Call) (m : Option (ℤ × World Call Trfs)) (sb f : Ptr) (op : Operation)
    (d : Ptr) (flags perm_flags : ℤ) (aux : Aux) (w : World Call Trfs) : Type 0 where
  pub err : ℤ
  pub w1 : World Call Trfs
  pub finish : World Call Trfs → World Call Trfs
  pub same : SameLog f w w1
  pub int : IsInt err
  pub fin : (v : World Call Trfs) → SameLog f v (finish v)
  pub runs :
      (w2 : World Call Trfs)
      → log_operation sb
          (type_of op)
          d
          flags
          perm_flags
          err
          aux
          (pos (length (chars_of (aux_memory aux))))
          env
          w1
        ≡ some (tt, w2)
      → m ≡ some (err, finish w2)

module _ (env : Env Call) (sb f : Ptr) (op : Operation) (d : Ptr) (flags perm_flags : ℤ) (aux : Aux)
    (m : Option (ℤ × World Call Trfs)) (w : World Call Trfs) where
  -- With `body`, the run of its work from the state `ready` on.
  pub handler_lem :
      (finish : World Call Trfs → World Call Trfs) (body : Option (ℤ × World Call Trfs))
      (ready : World Call Trfs)
      → SameLog f w ready
      → body ≢ none
      → ((err : ℤ) (w1 : World Call Trfs) → body ≡ some (err, w1) → SameLog f ready w1 × IsInt err)
      → ((v : World Call Trfs) → SameLog f v (finish v))
      → ((err : ℤ) (w1 w2 : World Call Trfs)
          → body ≡ some (err, w1)
          → log_operation sb
              (type_of op)
              d
              flags
              perm_flags
              err
              aux
              (pos (length (chars_of (aux_memory aux))))
              env
              w1
            ≡ some (tt, w2)
          → m ≡ some (err, finish w2))
      → Handled env m sb f op d flags perm_flags aux w
  handler_lem finish body ready before ends keeps fin runs = elim (Option-cases body) [
    | inl e ↦ absurd (ends e)
    | inr ((err, w1), e) ↦
        let (same, int) = keeps err w1 e in
        record {
          err = err;
          w1 = w1;
          finish = finish;
          same = (same.0 ∙ before.0, same.1 ∙ before.1, same.2 ∙ before.2);
          int = int;
          fin = fin;
          runs = λ w2. runs err w1 w2 e;
        }
  ]

  -- With the operation's bit in the mask.
  pub Handled-Traced :
      (umask : ℕ) (file : List ℕ)
      → IsHealthy env sb
      → Suits op aux
      → LogIs sb f umask file w
      → bit_and (type_of op) umask ≡ type_of op
      → Handled env m sb f op d flags perm_flags aux w
      → Traced env m sb f umask file op d flags perm_flags aux ((w.vars.trecord_id + 1) % 2 ^ 32)
  Handled-Traced umask file healthy suits at on h =
      let at1 = LogIs-SameLog sb f umask file w h.w1 at h.same in
      let logged =
        log_operation_on env sb f umask file healthy d flags perm_flags h.err op aux suits h.int
          h.w1 at1 on in
      let next = ap (λ n. (n + 1) % 2 ^ 32) h.same.2 in
      record {
        err = h.err;
        r = logged.r;
        path = logged.path;
        after = h.finish logged.after;
        page = logged.page;
        t = logged.t;
        runs = h.runs logged.after logged.runs;
        describes =
            subst (λ n. Describes op flags perm_flags h.err n logged.path logged.r) next
              logged.describes;
        path_of_d = logged.path_of_d;
        carries = logged.carries;
        at =
            LogIs-SameLog sb f umask (file ++ image logged.r) logged.after (h.finish logged.after)
              logged.at (h.fin logged.after);
        counter = (h.fin logged.after).2 ∙ logged.counter ∙ next;
      }
