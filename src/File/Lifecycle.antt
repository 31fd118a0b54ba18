-- ===== src/File/Lifecycle.antt =====
-- A file that is opened and then released: the lower file that was opened is given back.
use trace_file_system.Prelude.{
  ℤ, pos, ◌≡◌, ◌≢◌, sym, refl, ◌==ℤ◌, ==ℤ_self, false, Option, none, some, arith, Option-cases, inl,
  inr, to_int_of_IsInt, neg_part, ◌≤◌,
}
use mathlib.Core.Path.{subst}
use trace_file_system.Exec.{Env, World, Trace}
use trace_file_system.Kernel.{
  Ptr, null, is_err, KPath, FileInfo, Trfs, Call, update, dentry_open, fput, free, file_info, alloc,
  spin_lock, spin_unlock, path_get,
}
use trace_file_system.Kernel.Path.{trfs_get_lower_path, trfs_set_lower_file}
use trace_file_system.Inode.Traced.{called}
use trace_file_system.File.{OpenFile}
use trace_file_system.File.Open.{zero_file, drop_lower, open_lower, trfs_open, trfs_file_release}

-- The lower file in the private data, NULL without any.
abbrev pub lower_of : Option FileInfo → Ptr
lower_of none = null
lower_of (some info) = info.lower_file

-- `lower` is what the kernel opened at the lower path of the file's dentry, with the file's flags.
pub record IsOpened (env : Env Call) (f : OpenFile) (w : World Call Trfs) (lower : Ptr)
    : Type 0 where
  pub path : KPath
  pub at : w.vars.d_fsdata f.f_dentry ≡ some path
  pub t : Trace Call
  pub opened : lower ≡ env.reply (dentry_open path f.f_flags) t
  pub fine : is_err lower ≡ false

-- The state behind the release of a file whose lower file is `lower`: that is given back, and the
-- private data freed.
abbrev pub released : Env Call → OpenFile → Ptr → Ptr → World Call Trfs → World Call Trfs
released env f lower vm_ops w =
    let v : World Call Trfs = record w {
      vars = record w.vars {
        private_data =
            update w.vars.private_data f.file
              (some (record { lower_file = null; lower_vm_ops = vm_ops }));
      };
    } in
    called env (free (file_info f.file)) (called env (fput lower) v)

-- `dentry_open` returns a file, or the negated number of an error.
abbrev pub OpensFiles : Env Call → Type 0
OpensFiles env =
    (path : KPath) (flags : ℤ) (t : Trace Call)
    → ((env.reply (dentry_open path flags) t ==ℤ null) ≡ false)
      × (neg_part (env.reply (dentry_open path flags) t) ≤ 4095)

module _ (env : Env Call) (f : OpenFile) (opens : OpensFiles env) where
  open_lower-IsOpened :
      (w : World Call Trfs) (inode : Ptr) (path : KPath) (info : FileInfo) {w1 : World Call Trfs}
      → w.vars.d_fsdata f.f_dentry ≡ some path
      → w.vars.private_data f.file ≡ some info
      → open_lower inode f env w ≡ some (pos 0, w1)
      → IsOpened env f w (lower_of (w1.vars.private_data f.file))
  unfolding open_lower drop_lower trfs_get_lower_path trfs_set_lower_file
  open_lower-IsOpened w inode path info at opened h =
      let w2 = called env (path_get path) (called env (spin_lock f.f_dentry) w) in
      let w3 = called env (spin_unlock f.f_dentry) w2 in
      let x = env.reply (dentry_open path f.f_flags) w3.trace in
      record {
        path = path;
        at = at;
        t = w3.trace;
        opened = ground (arith, opens path f.f_flags w3.trace, to_int_of_IsInt x, ==ℤ_self f.file);
        fine = ground (arith, opens path f.f_flags w3.trace, to_int_of_IsInt x, ==ℤ_self f.file);
      }

  no_path_lem :
      (w : World Call Trfs) (inode : Ptr) {r : ℤ × World Call Trfs}
      → w.vars.d_fsdata f.f_dentry ≡ none
      → open_lower inode f env w ≢ some r
  unfolding open_lower trfs_get_lower_path
  no_path_lem w inode e h = ground arith

  -- `trfs_open` that returns 0
  trfs_open-IsOpened :
      (w : World Call Trfs) (inode : Ptr) {w1 : World Call Trfs}
      → trfs_open inode f env w ≡ some (pos 0, w1)
      → IsOpened env f w (lower_of (w1.vars.private_data f.file))
  unfolding trfs_open
  trfs_open-IsOpened w inode {w1} h =
      let c = alloc (file_info f.file) in
      let v = called env c w in
      let v1 : World Call Trfs = record v {
        vars = record w.vars { private_data = update w.vars.private_data f.file (some zero_file) };
      } in
      let run : open_lower inode f env v1 ≡ some (pos 0, w1) = ground arith in
      elim (Option-cases (w.vars.d_fsdata f.f_dentry)) [
        | inl e ↦ absurd (no_path_lem v1 inode e run)
        | inr (path, e) ↦
            let o = open_lower-IsOpened v1 inode path zero_file e (rw (==ℤ_self f.file) refl) run in
            record { path = o.path; at = o.at; t = o.t; opened = o.opened; fine = o.fine }
      ]

  release_runs :
      (w : World Call Trfs) (inode lower vm_ops : Ptr)
      → (lower ==ℤ null) ≡ false
      → w.vars.private_data f.file ≡ some (record { lower_file = lower; lower_vm_ops = vm_ops })
      → trfs_file_release inode f env w ≡ some (pos 0, released env f lower vm_ops w)
  unfolding trfs_file_release drop_lower trfs_set_lower_file
  release_runs w inode lower vm_ops n at = ground arith

-- A file that was opened with the result 0 is released, later, in any state in which its private data
-- still name that lower file: the lower file is what the kernel opened, at the lower path of the
-- dentry and with the flags of the file, and the release comes to an end with 0, gives the lower file
-- back once and frees the private data. The kernel opens a file or returns the number of an error.
pub open_then_release :
    (env : Env Call) (f : OpenFile) (w w1 w2 : World Call Trfs) (inode inode' vm_ops : Ptr)
    → OpensFiles env
    → trfs_open inode f env w ≡ some (pos 0, w1)
    → w2.vars.private_data f.file
      ≡ some (record { lower_file = lower_of (w1.vars.private_data f.file); lower_vm_ops = vm_ops })
    → IsOpened env f w (lower_of (w1.vars.private_data f.file))
      × (trfs_file_release inode' f env w2
          ≡ some (pos 0, released env f (lower_of (w1.vars.private_data f.file)) vm_ops w2))
open_then_release env f w w1 w2 inode inode' vm_ops opens h at =
    let o = trfs_open-IsOpened env f opens w inode h in
    let there = subst (λ x. (x ==ℤ null) ≡ false) (sym o.opened) (opens o.path f.f_flags o.t).0 in
    (o, release_runs env f opens w2 inode' _ vm_ops there at)
