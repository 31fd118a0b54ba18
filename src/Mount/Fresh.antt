-- ===== src/Mount/Fresh.antt =====
-- A mount that succeeds starts with a log to which nothing is written, for every operation.
use trace_file_system.Prelude.{
  ℕ, ◌≡◌, sym, ◌+◌, refl, ◌∙◌, ℤ, pos, true, ◌≤◌, neg_part, to_int_of_IsInt, ◌==ℤ◌, ==ℤ_self, false,
  Option, some, none, List, [], drop, Option-cases, inl, inr, arith, to_int,
}
use trace_file_system.Exec.{Env, World, Trace}
use trace_file_system.Kernel.{
  Ptr, is_err, KPath, Trfs, Call, alloc, sb_info, kmalloc, kern_path, found_dentry, found_mnt,
  getname_text, filp_open, d_inode, d_sb, s_active_inc, set_sb_fields, d_make_root, SbInfo, update,
  mutex_init, d_rehash, spin_lock, spin_unlock, set_d_op, set_s_root,
}
use trace_file_system.Record.{sizeof_record}
use trace_file_system.Kernel.Path.{trfs_set_lower_path, trfs_set_lower_super}
use trace_file_system.Inode.Traced.{called}
use mathlib.Core.Path.{subst}
use trace_file_system.Dump.Log.{LogIs, log_file}
use trace_file_system.Lookup.{trfs_iget}
use trace_file_system.Lookup.Private.{new_dentry_private_data}
use trace_file_system.Lookup.Interpose.{trfs_iget-SameLog}
use trace_file_system.Mount.{
  name_index, tfile_len, all_bits, zero_info, open_trfile, create_trfile, out_fsi_free,
  out_fsp_free, out_sput, finish_super, make_root, stack_super, fill_super, alloc_super,
  trfs_read_super,
}

-- Nothing has been written to any file.
abbrev pub NoWrites : World Call Trfs → Type 0
NoWrites w = (f : Ptr) → log_file f w.trace ≡ []

-- O_RDWR, O_CREAT and O_EXCL: the kernel makes the file, or fails if there is one; and S_IRUSR
abbrev pub new_file : ℕ
new_file = 2 + 64 + 128

abbrev pub readable : ℕ
readable = 256

-- `f` is a file that the kernel has opened as a new one.
pub record IsOpened (env : Env Call) (f : Ptr) : Type 0 where
  pub name : Ptr
  pub t : Trace Call
  pub opened : env.reply (filp_open name new_file readable) t ≡ f
  pub no_error : is_err f ≡ false

-- `sb` has a log file that was made and opened and to which nothing is written, and every bit of its mask is set.
pub record IsFresh (env : Env Call) (sb : Ptr) (w : World Call Trfs) : Type 0 where
  pub f : Ptr
  pub is_open : IsOpened env f
  pub at : LogIs sb f all_bits [] w

-- A pointer that is no address is an error number from 1 to 4095, negated.
abbrev pub IsPointer : Ptr → Type 0
IsPointer p = neg_part p ≤ 4095

abbrev pub OpensPointers : Env Call → Type 0
OpensPointers env =
    ((s : List ℕ) (t : Trace Call) → IsPointer (env.reply (getname_text s) t))
    × ((name : Ptr) (flags mode : ℕ) (t : Trace Call)
        → IsPointer (env.reply (filp_open name flags mode) t))

error_number : (p : Ptr) → IsPointer p → is_err p ≡ true → (to_int p ==ℤ pos 0) ≡ false
error_number p h e = ground (arith, to_int_of_IsInt p)

module _ (env : Env Call) (sb : Ptr) where
  -- The errors of the label `out_sput` read through the private data that has just been dropped.
  pub out_sput-oops :
      (w : World Call Trfs) (lower_sb : Ptr) (path : KPath) → out_sput sb lower_sb path env w ≡ none
  unfolding out_sput out_fsp_free
  out_sput-oops w lower_sb path = ground (arith, ==ℤ_self sb)

  module _ (w : World Call Trfs) (root f : Ptr) (path : KPath) (info : SbInfo) where
    -- the state at the end, with the private data `info` of the superblock before it
    abbrev finished : World Call Trfs
    finished =
        let v = called env (mutex_init sb) (
          called env (d_rehash root)
            (called env (spin_unlock root) (called env (spin_lock root) w))) in
        record v {
          vars = record w.vars {
            d_fsdata = update w.vars.d_fsdata root (some path);
            s_fs_info =
                update w.vars.s_fs_info sb
                  (some (record info { tr_lower_filep = f; f_pos = pos 0; umask = all_bits }));
          };
        }

    finished-LogIs : log_file f w.trace ≡ [] → LogIs sb f all_bits [] finished
    unfolding log_file
    finished-LogIs empty = record {
      info = record info { tr_lower_filep = f; f_pos = pos 0; umask = all_bits };
      mounted = rw (==ℤ_self sb) refl;
      filep = refl;
      mask = refl;
      f_pos = refl;
      content = empty;
    }

    finish_super-finished :
        {err : ℤ} {w' : World Call Trfs}
        → w.vars.s_fs_info sb ≡ some info
        → finish_super sb root f path env w ≡ some (err, w')
        → w' ≡ finished
    unfolding finish_super trfs_set_lower_path
    finish_super-finished at h = ground arith

  finish_super-LogIs :
      (w : World Call Trfs) (root f : Ptr) (path : KPath) {err : ℤ} {w' : World Call Trfs}
      → NoWrites w
      → finish_super sb root f path env w ≡ some (err, w')
      → LogIs sb f all_bits [] w'
  unfolding finish_super trfs_set_lower_path
  finish_super-LogIs w root f path empty h = elim (Option-cases (w.vars.s_fs_info sb)) [
    | inl e ↦ absurd (ground arith)
    | inr (info, e) ↦
        subst (LogIs sb f all_bits []) (sym (finish_super-finished w root f path info e h))
          (finished-LogIs w root f path info (empty f))
  ]

  new_dentry_private_data-NoWrites :
      (w : World Call Trfs) (d : Ptr) {err : ℤ} {w' : World Call Trfs}
      → NoWrites w
      → new_dentry_private_data d env w ≡ some (err, w')
      → NoWrites w'
  unfolding new_dentry_private_data log_file
  new_dentry_private_data-NoWrites w d empty h f = ground (arith, empty f)

  make_root-LogIs :
      (w : World Call Trfs) (lower_sb inode f : Ptr) (path : KPath) {w' : World Call Trfs}
      → NoWrites w
      → make_root sb lower_sb inode f path env w ≡ some (pos 0, w')
      → LogIs sb f all_bits [] w'
  unfolding make_root log_file
  make_root-LogIs w lower_sb inode f path {w'} empty h =
      let root = env.reply (d_make_root inode) w.trace in
      let v =
        called env (set_d_op root)
          (called env (set_s_root sb root) (called env (d_make_root inode) w)) in
      let w1 : World Call Trfs = record v {
        vars = record w.vars { d_fsdata = update w.vars.d_fsdata root none };
      } in
      elim (Option-cases (new_dentry_private_data root env w1)) [
        | inl e ↦ absurd (grind (arith, out_sput-oops))
        | inr ((err, w2), e) ↦ elim (Option-cases (finish_super sb root f path env w2)) [
          | inl e1 ↦ absurd (grind (arith, out_sput-oops))
          | inr ((err', w3), e1) ↦
              let same : w' ≡ w3 = grind (arith, out_sput-oops) in
              subst (LogIs sb f all_bits []) (sym same) (
                finish_super-LogIs w2 root f path
                  (new_dentry_private_data-NoWrites w1 root (λ g. empty g) e) e1)
        ]
      ]

  stack_super-LogIs :
      (w : World Call Trfs) (f : Ptr) (path : KPath) {w' : World Call Trfs}
      → NoWrites w
      → stack_super sb f path env w ≡ some (pos 0, w')
      → LogIs sb f all_bits [] w'
  unfolding stack_super trfs_set_lower_super log_file
  stack_super-LogIs w f path {w'} empty h = elim (Option-cases (w.vars.s_fs_info sb)) [
    | inl e ↦ absurd (ground arith)
    | inr (info, e) ↦
        let lower_sb = env.reply (d_sb path.dentry) w.trace in
        let v = called env (set_sb_fields sb lower_sb) (called env (s_active_inc lower_sb) w) in
        let w1 : World Call Trfs = record v {
          vars = record w.vars {
            s_fs_info = update w.vars.s_fs_info sb (some (record info { lower_sb = lower_sb }));
          };
        } in
        let lower = env.reply (d_inode path.dentry) w1.trace in
        elim (Option-cases (trfs_iget sb lower env w1)) [
          | inl e1 ↦ absurd (ground arith)
          | inr ((inode, w2), e1) ↦
              elim (Option-cases (make_root sb lower_sb inode f path env w2)) [
                | inl e2 ↦ absurd (grind (arith, out_sput-oops))
                | inr ((err, w3), e2) ↦
                    let kept : NoWrites w2 =
                      λ g. (trfs_iget-SameLog env g w1 sb lower e1).0 ∙ empty g in
                    make_root-LogIs w2 lower_sb inode f path kept (grind (arith, out_sput-oops))
              ]
        ]
  ]

  create_trfile-NoWrites :
      (w : World Call Trfs) (option : Option (List ℕ)) {f : Ptr} {w' : World Call Trfs}
      → NoWrites w
      → create_trfile option env w ≡ some (f, w')
      → NoWrites w'
  unfolding create_trfile open_trfile log_file
  create_trfile-NoWrites w option empty h f = ground (arith, empty f)

  create_trfile-IsPointer :
      OpensPointers env
      → (w : World Call Trfs) (option : Option (List ℕ)) {f : Ptr} {w' : World Call Trfs}
      → create_trfile option env w ≡ some (f, w')
      → IsPointer f
  unfolding create_trfile open_trfile name_index
  create_trfile-IsPointer opens w option {f} h = grind (arith, opens.0, opens.1)

  create_trfile-IsOpened :
      (w : World Call Trfs) (option : Option (List ℕ)) {f : Ptr} {w' : World Call Trfs}
      → is_err f ≡ false
      → create_trfile option env w ≡ some (f, w')
      → IsOpened env f
  unfolding create_trfile open_trfile name_index
  create_trfile-IsOpened w none good h = absurd (ground arith)
  create_trfile-IsOpened w (some option) good h =
      let c = getname_text (drop tfile_len option) in
      record {
        name = env.reply c w.trace;
        t = (called env c w).trace;
        opened = ground arith;
        no_error = good;
      }

  fill_super-IsFresh :
      OpensPointers env
      → (w : World Call Trfs) (option : Option (List ℕ)) (path : KPath) {w' : World Call Trfs}
      → NoWrites w
      → fill_super sb option path env w ≡ some (pos 0, w')
      → IsFresh env sb w'
  unfolding fill_super out_fsi_free out_fsp_free log_file
  fill_super-IsFresh opens w option path {w'} empty h = elim (Option-cases (w.vars.s_fs_info sb)) [
    | inl e ↦ absurd (ground arith)
    | inr (info, e) ↦
        let size = kmalloc (sizeof_record + 4096) in
        let v = called env size w in
        let w1 : World Call Trfs = record v {
          vars = record w.vars {
            s_fs_info =
                update w.vars.s_fs_info sb
                  (some (record info { tr_page = env.reply size w.trace }));
          };
        } in
        elim (Option-cases (create_trfile option env w1)) [
          | inl e1 ↦ absurd (ground arith)
          | inr ((f, w2), e1) ↦
              let pointer = create_trfile-IsPointer opens w1 option e1 in
              elim (Option-cases (stack_super sb f path env w2)) [
                | inl e2 ↦ absurd (ground (arith, error_number f pointer))
                | inr ((err, w3), e2) ↦
                    let good : is_err f ≡ false = ground (arith, error_number f pointer) in
                    record {
                      f = f;
                      is_open = create_trfile-IsOpened w1 option good e1;
                      at =
                          stack_super-LogIs w2 f path
                            (create_trfile-NoWrites w1 option (λ g. empty g) e1) (ground arith);
                    }
              ]
        ]
  ]

  -- after the lookup of the lower directory, and with what it has found
  abbrev looked : List ℕ → World Call Trfs → World Call Trfs
  looked dev w = called env (kern_path dev) w

  abbrev lower_root : List ℕ → World Call Trfs → KPath
  lower_root dev w = record {
    dentry = env.reply found_dentry (looked dev w).trace;
    mnt = env.reply found_mnt (looked dev w).trace;
  }

  alloc_super-IsFresh :
      OpensPointers env
      → (w : World Call Trfs) (option : Option (List ℕ)) (path : KPath) {w' : World Call Trfs}
      → NoWrites w
      → alloc_super sb option path env w ≡ some (pos 0, w')
      → IsFresh env sb w'
  unfolding alloc_super log_file
  alloc_super-IsFresh opens w option path {w'} empty h =
      let c = alloc (sb_info sb) in
      let v = called env c w in
      let w1 : World Call Trfs = record v {
        vars = record w.vars { s_fs_info = update w.vars.s_fs_info sb (some zero_info) };
      } in
      elim (Option-cases (fill_super sb option path env w1)) [
        | inl e ↦ absurd (ground arith)
        | inr ((err, w2), e) ↦ fill_super-IsFresh opens w1 option path (λ g. empty g) (ground arith)
      ]

-- A mount that returns 0, where nothing has been written to a file before and the calls that open
-- the log return pointers or error numbers, leaves a superblock with a log file that was opened for
-- reading and writing with O_CREAT and O_EXCL and to which nothing is written yet, the position at its
-- start and every bit of the mask set.
pub trfs_read_super-IsFresh :
    (env : Env Call) (sb : Ptr) (dev option : Option (List ℕ)) (w : World Call Trfs)
    {w' : World Call Trfs}
    → OpensPointers env
    → NoWrites w
    → trfs_read_super sb dev option env w ≡ some (pos 0, w')
    → IsFresh env sb w'
unfolding trfs_read_super log_file
trfs_read_super-IsFresh env sb none option w opens empty h = absurd (ground arith)
trfs_read_super-IsFresh env sb (some dev) option w {w'} opens empty h =
    elim (Option-cases
      (alloc_super sb option (lower_root env sb dev w) env (looked env sb dev w))) [
        | inl e ↦ absurd (ground arith)
        | inr ((err, w1), e) ↦
            alloc_super-IsFresh env sb opens (looked env sb dev w) option (lower_root env sb dev w)
              (λ g. empty g) (ground arith)
      ]
