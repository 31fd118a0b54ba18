-- ===== src/Balance/Parent.antt =====
-- The handlers that lock the parent of one name give back what they take, on each branch.
use trace_file_system.Prelude.{ℤ, pos, Bool, ◌≡◌, some, arith, Option-cases, inl, inr, length}
use trace_file_system.Exec.{Env, World}
use trace_file_system.Record.{Chars, tr_fcreat, tr_unlink, tr_symlink, tr_dcreat}
use trace_file_system.Kernel.{Ptr, Trfs, Call, d_inode, i_sb}
use trace_file_system.Kernel.Path.{
  trfs_get_lower_path, trfs_put_lower_path, lock_parent, unlock_dir,
}
use trace_file_system.Dump.{no_aux, memory, log_operation}
use trace_file_system.Inode.{lower_create, trfs_create}
use trace_file_system.Inode.Nodes.{
  lower_symlink, trfs_symlink, lower_mkdir, trfs_mkdir, lower_rmdir, trfs_rmdir,
}
use trace_file_system.Inode.Traced.{locked, lower_parent}
use trace_file_system.Balance.{Tidy, taken, given}
use trace_file_system.Balance.Log.{log_operation-Tidy}
use trace_file_system.Balance.Lower.{
  lower_create-Tidy, lower_symlink-Tidy, lower_mkdir-Tidy, lower_rmdir-Tidy,
}

module _ (env : Env Call) (i : Ptr) where
  pub trfs_create-Tidy :
      (w : World Call Trfs) (dir d : Ptr) (mode : ℤ) (excl : Bool) {err : ℤ} {w' : World Call Trfs}
      → trfs_create dir d mode excl env w ≡ some (err, w')
      → Tidy i w w'
  unfolding trfs_create trfs_get_lower_path trfs_put_lower_path lock_parent unlock_dir taken given
  trfs_create-Tidy w dir d mode excl h = elim (Option-cases (w.vars.d_fsdata d)) [
    | inl e ↦ ground arith
    | inr (path, e) ↦
        let ready = locked env d path w in
        let parent = lower_parent env d path w in
        elim (Option-cases (lower_create dir d mode excl path parent env ready)) [
          | inl e1 ↦ ground arith
          | inr ((err, w1), e1) ↦
              let sb = env.reply (i_sb dir) w1.trace in
              elim (Option-cases
                (log_operation sb tr_fcreat d (pos 0) mode err no_aux (pos 0) env w1)) [
                  | inl e2 ↦ ground arith
                  | inr ((u, w2), e2) ↦ ground (
                    arith,
                    lower_create-Tidy env i ready dir d mode excl path parent e1,
                    log_operation-Tidy env i w1 sb tr_fcreat d (pos 0) mode err no_aux (pos 0) e2,
                  )
                ]
        ]
  ]

  pub trfs_symlink-Tidy :
      (w : World Call Trfs) (dir d : Ptr) (symname : Chars) {err : ℤ} {w' : World Call Trfs}
      → trfs_symlink dir d symname env w ≡ some (err, w')
      → Tidy i w w'
  unfolding trfs_symlink trfs_get_lower_path trfs_put_lower_path lock_parent unlock_dir taken given
  trfs_symlink-Tidy w dir d symname h = elim (Option-cases (w.vars.d_fsdata d)) [
    | inl e ↦ ground arith
    | inr (path, e) ↦
        let ready = locked env d path w in
        let parent = lower_parent env d path w in
        elim (Option-cases (lower_symlink dir d symname path parent env ready)) [
          | inl e1 ↦ ground arith
          | inr ((err, w1), e1) ↦
              let sb = env.reply (i_sb (env.reply (d_inode d) w1.trace)) w1.trace in
              elim (Option-cases (
                log_operation sb tr_symlink d (pos 0) (pos 0) err (memory symname)
                  (pos (length symname.chars)) env w1)) [
                    | inl e2 ↦ ground arith
                    | inr ((u, w2), e2) ↦ ground (
                      arith,
                      lower_symlink-Tidy env i ready dir d symname path parent e1,
                      log_operation-Tidy env i w1 sb tr_symlink d (pos 0) (pos 0) err
                          (memory symname) (pos (length symname.chars)) e2,
                    )
                  ]
        ]
  ]

  pub trfs_mkdir-Tidy :
      (w : World Call Trfs) (dir d : Ptr) (mode : ℤ) {err : ℤ} {w' : World Call Trfs}
      → trfs_mkdir dir d mode env w ≡ some (err, w')
      → Tidy i w w'
  unfolding trfs_mkdir trfs_get_lower_path trfs_put_lower_path lock_parent unlock_dir taken given
  trfs_mkdir-Tidy w dir d mode h = elim (Option-cases (w.vars.d_fsdata d)) [
    | inl e ↦ ground arith
    | inr (path, e) ↦
        let ready = locked env d path w in
        let parent = lower_parent env d path w in
        elim (Option-cases (lower_mkdir dir d mode path parent env ready)) [
          | inl e1 ↦ ground arith
          | inr ((err, w1), e1) ↦
              let sb = env.reply (i_sb dir) w1.trace in
              elim (Option-cases
                (log_operation sb tr_dcreat d (pos 0) mode err no_aux (pos 0) env w1)) [
                  | inl e2 ↦ ground arith
                  | inr ((u, w2), e2) ↦ ground (
                    arith,
                    lower_mkdir-Tidy env i ready dir d mode path parent e1,
                    log_operation-Tidy env i w1 sb tr_dcreat d (pos 0) mode err no_aux (pos 0) e2,
                  )
                ]
        ]
  ]

  pub trfs_rmdir-Tidy :
      (w : World Call Trfs) (dir d : Ptr) {err : ℤ} {w' : World Call Trfs}
      → trfs_rmdir dir d env w ≡ some (err, w')
      → Tidy i w w'
  unfolding trfs_rmdir trfs_get_lower_path trfs_put_lower_path lock_parent unlock_dir taken given
  trfs_rmdir-Tidy w dir d h = elim (Option-cases (w.vars.d_fsdata d)) [
    | inl e ↦ ground arith
    | inr (path, e) ↦
        let ready = locked env d path w in
        let parent = lower_parent env d path w in
        elim (Option-cases (lower_rmdir dir d path parent env ready)) [
          | inl e1 ↦ ground arith
          | inr ((err, w1), e1) ↦
              let sb = env.reply (i_sb dir) w1.trace in
              elim (Option-cases
                (log_operation sb tr_unlink d (pos 0) (pos 0) err no_aux (pos 0) env w1)) [
                  | inl e2 ↦ ground arith
                  | inr ((u, w2), e2) ↦ ground (
                    arith,
                    lower_rmdir-Tidy env i ready dir d path parent e1,
                    log_operation-Tidy env i w1 sb tr_unlink d (pos 0) (pos 0) err no_aux (pos 0)
                        e2,
                  )
                ]
        ]
  ]
