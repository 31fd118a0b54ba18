-- ===== src/Balance/Handlers.antt =====
-- The handlers that log give back the locks and the references that they take, on each branch.
use trace_file_system.Prelude.{ℤ, pos, ◌≡◌, some, arith, Option-cases, inl, inr, length}
use trace_file_system.Exec.{Env, World}
use trace_file_system.Record.{Chars, tr_link, tr_unlink, tr_rename, tr_fwrite}
use trace_file_system.Kernel.{Ptr, null, Trfs, Call, d_inode, i_sb}
use trace_file_system.Kernel.Path.{
  trfs_get_lower_path, trfs_put_lower_path, lock_parent, unlock_dir,
}
use trace_file_system.Dump.{no_aux, memory, dentry, log_operation}
use trace_file_system.Inode.{lower_link, trfs_link, lower_unlink, trfs_unlink}
use trace_file_system.Inode.Rename.{lower_rename, trfs_rename}
use trace_file_system.File.{OpenFile, copy_attrs, trfs_write}
use trace_file_system.Inode.Link
use trace_file_system.Inode.Unlink
use trace_file_system.Inode.Rename.Run
use trace_file_system.File.Write
use trace_file_system.Requests.{Request, serve}
use trace_file_system.Balance.{Balanced, Kept, Tidy, taken, given}
use trace_file_system.Balance.Log.{log_operation-Tidy}
use trace_file_system.Balance.Lower.{lower_link-Tidy, lower_unlink-Tidy, lower_rename-Tidy}
use trace_file_system.Balance.Parent.{
  trfs_create-Tidy, trfs_symlink-Tidy, trfs_mkdir-Tidy, trfs_rmdir-Tidy,
}

module _ (env : Env Call) (i : Ptr) where
  trfs_unlink-Tidy :
      (w : World Call Trfs) (dir d : Ptr) {err : ℤ} {w' : World Call Trfs}
      → trfs_unlink dir d env w ≡ some (err, w')
      → Tidy i w w'
  unfolding trfs_unlink trfs_get_lower_path trfs_put_lower_path lock_parent unlock_dir taken given
  trfs_unlink-Tidy w dir d h = elim (Option-cases (w.vars.d_fsdata d)) [
    | inl e ↦ ground arith
    | inr (path, e) ↦
        let ready = Unlink.locked env d path w in
        let lower = w.vars.lower_inode dir in
        elim (Option-cases (lower_unlink dir d lower path env ready)) [
          | inl e1 ↦ ground arith
          | inr ((err, w1), e1) ↦
              let sb = env.reply (i_sb dir) w1.trace in
              elim (Option-cases
                (log_operation sb tr_unlink d (pos 0) (pos 0) err no_aux (pos 0) env w1)) [
                  | inl e2 ↦ ground arith
                  | inr ((u, w2), e2) ↦ ground (
                    arith,
                    lower_unlink-Tidy env i ready dir d lower path e1,
                    log_operation-Tidy env i w1 sb tr_unlink d (pos 0) (pos 0) err no_aux (pos 0)
                        e2,
                  )
                ]
        ]
  ]

  trfs_link-Tidy :
      (w : World Call Trfs) (old_d dir new_d : Ptr) {err : ℤ} {w' : World Call Trfs}
      → trfs_link old_d dir new_d env w ≡ some (err, w')
      → Tidy i w w'
  unfolding trfs_link trfs_get_lower_path trfs_put_lower_path lock_parent unlock_dir taken given
  trfs_link-Tidy w old_d dir new_d h = elim (Option-cases (w.vars.d_fsdata old_d)) [
    | inl e ↦ ground arith
    | inr (p, e) ↦ elim (Option-cases (w.vars.d_fsdata new_d)) [
      | inl e0 ↦ ground arith
      | inr (q, e0) ↦
          let ready = Link.locked env old_d new_d p q w in
          let size = Link.size_of env old_d new_d p q w in
          let parent = Link.parent_of env old_d new_d p q w in
          elim (Option-cases (lower_link old_d dir new_d size p q parent env ready)) [
            | inl e1 ↦ ground arith
            | inr ((err, w1), e1) ↦
                let sb = env.reply (i_sb (env.reply (d_inode old_d) w1.trace)) w1.trace in
                elim (Option-cases (
                  log_operation sb tr_link old_d (pos 0) (pos 0) err (dentry new_d) (pos 0) env
                    w1)) [
                      | inl e2 ↦ ground arith
                      | inr ((u, w2), e2) ↦ ground (
                        arith,
                        lower_link-Tidy env i ready old_d dir new_d size p q parent e1,
                        log_operation-Tidy env i w1 sb tr_link old_d (pos 0) (pos 0) err
                            (dentry new_d) (pos 0) e2,
                      )
                    ]
          ]
    ]
  ]

  trfs_rename-Tidy :
      (w : World Call Trfs) (old_dir old_d new_dir new_d : Ptr) {err : ℤ} {w' : World Call Trfs}
      → trfs_rename old_dir old_d new_dir new_d env w ≡ some (err, w')
      → Tidy i w w'
  unfolding trfs_rename trfs_get_lower_path trfs_put_lower_path taken given
  trfs_rename-Tidy w old_dir old_d new_dir new_d h = elim (Option-cases (w.vars.d_fsdata old_d)) [
    | inl e ↦ ground arith
    | inr (p, e) ↦ elim (Option-cases (w.vars.d_fsdata new_d)) [
      | inl e0 ↦ ground arith
      | inr (q, e0) ↦
          let ready = Run.locked env old_d new_d p q w in
          let a = Run.lower_old_dir env old_d new_d p q w in
          let b = Run.lower_new_dir env old_d new_d p q w in
          let t = Run.trap env old_d new_d p q w in
          elim (Option-cases (lower_rename old_dir new_dir a b t p q env ready)) [
            | inl e1 ↦ ground arith
            | inr ((err, w1), e1) ↦
                let sb = env.reply (i_sb (env.reply (d_inode old_d) w1.trace)) w1.trace in
                elim (Option-cases (
                  log_operation sb tr_rename old_d (pos 0) (pos 0) err (dentry new_d) (pos 0) env
                    w1)) [
                      | inl e2 ↦ ground arith
                      | inr ((u, w2), e2) ↦ ground (
                        arith,
                        lower_rename-Tidy env i ready old_dir new_dir a b t p q e1,
                        log_operation-Tidy env i w1 sb tr_rename old_d (pos 0) (pos 0) err
                            (dentry new_d) (pos 0) e2,
                      )
                    ]
          ]
    ]
  ]

  trfs_write-Tidy :
      (w : World Call Trfs) (o : OpenFile) (buf : Chars) (count ppos : ℤ) {err : ℤ}
      {w' : World Call Trfs}
      → trfs_write o (some buf) count ppos env w ≡ some (err, w')
      → Tidy i w w'
  unfolding trfs_write copy_attrs taken given
  trfs_write-Tidy w o buf count ppos h = elim (Option-cases (w.vars.private_data o.file)) [
    | inl e ↦ ground arith
    | inr (info, e) ↦
        let w1 = Write.written env info o buf count ppos w in
        let err = Write.result env info o buf count ppos w in
        let sb = env.reply (i_sb (env.reply (d_inode o.f_dentry) w1.trace)) w1.trace in
        elim (Option-cases
          (log_operation sb tr_fwrite o.f_dentry o.f_flags (pos 0) err (memory buf) count env w1)) [
            | inl e2 ↦ ground arith
            | inr ((u, w2), e2) ↦ ground (
              arith,
              log_operation-Tidy env i w1 sb tr_fwrite o.f_dentry o.f_flags (pos 0) err (memory buf)
                  count e2,
            )
          ]
  ]

serve-Tidy :
    (env : Env Call) (i : Ptr) (w : World Call Trfs) (req : Request) {err : ℤ}
    {w' : World Call Trfs}
    → serve req env w ≡ some (err, w')
    → Tidy i w w'
unfolding serve
serve-Tidy env i w (Request.create dir d mode excl) h = trfs_create-Tidy env i w dir d mode excl h
serve-Tidy env i w (Request.link_to old_d dir new_d) h = trfs_link-Tidy env i w old_d dir new_d h
serve-Tidy env i w (Request.remove dir d) h = trfs_unlink-Tidy env i w dir d h
serve-Tidy env i w (Request.symlink_to dir d symname) h = trfs_symlink-Tidy env i w dir d symname h
serve-Tidy env i w (Request.mkdir dir d mode) h = trfs_mkdir-Tidy env i w dir d mode h
serve-Tidy env i w (Request.rmdir dir d) h = trfs_rmdir-Tidy env i w dir d h
serve-Tidy env i w (Request.rename_to old_dir old_d new_dir new_d) h =
    trfs_rename-Tidy env i w old_dir old_d new_dir new_d h
serve-Tidy env i w (Request.write o buf ppos) h =
    trfs_write-Tidy env i w o buf (pos (length buf.chars)) ppos h

-- A logged request that comes to an end has given back as many references to paths and dentries, and
-- as many locks of each kind, as it took: on each branch, whatever the kernel answers.
pub serve-Balanced :
    (env : Env Call) (w : World Call Trfs) (req : Request) {err : ℤ} {w' : World Call Trfs}
    → serve req env w ≡ some (err, w')
    → Balanced w w'
serve-Balanced env w req h = (serve-Tidy env null w req h).0

-- A logged request that comes to an end has left the private data of all dentries and files as they
-- were, and each inode that had a lower one has one: whatever the kernel answers.
pub serve-Kept :
    (env : Env Call) (w : World Call Trfs) (req : Request) {err : ℤ} {w' : World Call Trfs}
    → serve req env w ≡ some (err, w')
    → (i : Ptr) → Kept i w w'
serve-Kept env w req h i = (serve-Tidy env i w req h).1
