-- ===== src/Balance/Lower.antt =====
-- The calls of the lower file system, with what follows them, keep no lock and no reference.
use trace_file_system.Prelude.{ℤ, Bool, ◌≡◌, some, arith, Option-cases, inl, inr}
use trace_file_system.Exec.{Env, World}
use trace_file_system.Record.{Chars}
use trace_file_system.Kernel.{
  Ptr, KPath, Trfs, Call, d_inode, i_sb, vfs_create, vfs_link, vfs_symlink, vfs_mkdir,
}
use trace_file_system.Lookup.{trfs_interpose}
use trace_file_system.Inode.{lower_create, copy_link, lower_link, copy_unlinked, lower_unlink}
use trace_file_system.Inode.Nodes.{lower_symlink, lower_mkdir, copy_removed, lower_rmdir}
use trace_file_system.Inode.Rename.{lower_rename}
use trace_file_system.Inode.Traced.{called}
use trace_file_system.Balance.{Balanced, Kept, Tidy, taken, given}
use trace_file_system.Balance.Interpose.{trfs_interpose-Tidy}

module _ (env : Env Call) (i : Ptr) where
  pub lower_create-Tidy :
      (w : World Call Trfs) (dir d : Ptr) (mode : ℤ) (excl : Bool) (path : KPath) (parent : Ptr)
      {err : ℤ} {w' : World Call Trfs}
      → lower_create dir d mode excl path parent env w ≡ some (err, w')
      → Tidy i w w'
  unfolding lower_create taken given
  lower_create-Tidy w dir d mode excl path parent h =
      let w1 =
        called env (vfs_create (env.reply (d_inode parent) w.trace) path.dentry mode excl) w in
      let sb = env.reply (i_sb dir) w1.trace in
      elim (Option-cases (trfs_interpose d sb path env w1)) [
        | inl e ↦ ground arith
        | inr ((ret, w2), e) ↦ ground (arith, trfs_interpose-Tidy env i w1 d sb path e)
      ]

  pub lower_symlink-Tidy :
      (w : World Call Trfs) (dir d : Ptr) (symname : Chars) (path : KPath) (parent : Ptr) {err : ℤ}
      {w' : World Call Trfs}
      → lower_symlink dir d symname path parent env w ≡ some (err, w')
      → Tidy i w w'
  unfolding lower_symlink taken given
  lower_symlink-Tidy w dir d symname path parent h =
      let w1 =
        called env (vfs_symlink (env.reply (d_inode parent) w.trace) path.dentry symname.chars) w in
      let sb = env.reply (i_sb dir) w1.trace in
      elim (Option-cases (trfs_interpose d sb path env w1)) [
        | inl e ↦ ground arith
        | inr ((ret, w2), e) ↦ ground (arith, trfs_interpose-Tidy env i w1 d sb path e)
      ]

  pub lower_mkdir-Tidy :
      (w : World Call Trfs) (dir d : Ptr) (mode : ℤ) (path : KPath) (parent : Ptr) {err : ℤ}
      {w' : World Call Trfs}
      → lower_mkdir dir d mode path parent env w ≡ some (err, w')
      → Tidy i w w'
  unfolding lower_mkdir taken given
  lower_mkdir-Tidy w dir d mode path parent h =
      let w1 = called env (vfs_mkdir (env.reply (d_inode parent) w.trace) path.dentry mode) w in
      let sb = env.reply (i_sb dir) w1.trace in
      elim (Option-cases (trfs_interpose d sb path env w1)) [
        | inl e ↦ ground arith
        | inr ((ret, w2), e) ↦ ground (arith, trfs_interpose-Tidy env i w1 d sb path e)
      ]

  pub lower_link-Tidy :
      (w : World Call Trfs) (old_d dir d : Ptr) (size : ℤ) (old_path path : KPath) (parent : Ptr)
      {err : ℤ} {w' : World Call Trfs}
      → lower_link old_d dir d size old_path path parent env w ≡ some (err, w')
      → Tidy i w w'
  unfolding lower_link copy_link taken given
  lower_link-Tidy w old_d dir d size old_path path parent h =
      let w1 =
        called env (vfs_link old_path.dentry (env.reply (d_inode parent) w.trace) path.dentry) w in
      let sb = env.reply (i_sb dir) w1.trace in
      elim (Option-cases (trfs_interpose d sb path env w1)) [
        | inl e ↦ ground arith
        | inr ((ret, w2), e) ↦ ground (arith, trfs_interpose-Tidy env i w1 d sb path e)
      ]

  pub lower_unlink-Tidy :
      (w : World Call Trfs) (dir d lower_dir : Ptr) (path : KPath) {err : ℤ} {w' : World Call Trfs}
      → lower_unlink dir d lower_dir path env w ≡ some (err, w')
      → Tidy i w w'
  unfolding lower_unlink copy_unlinked taken given
  lower_unlink-Tidy w dir d lower_dir path h = ground arith

  pub lower_rmdir-Tidy :
      (w : World Call Trfs) (dir d : Ptr) (path : KPath) (lower_dir : Ptr) {err : ℤ}
      {w' : World Call Trfs}
      → lower_rmdir dir d path lower_dir env w ≡ some (err, w')
      → Tidy i w w'
  unfolding lower_rmdir copy_removed taken given
  lower_rmdir-Tidy w dir d path lower_dir h = ground arith

  lower_rename-Balanced :
      (w : World Call Trfs) (a b c d t : Ptr) (p q : KPath) {err : ℤ} {w' : World Call Trfs}
      → lower_rename a b c d t p q env w ≡ some (err, w')
      → Balanced w w'
  unfolding lower_rename taken given
  lower_rename-Balanced w a b c d t p q h = ground arith

  lower_rename-vars :
      (w : World Call Trfs) (a b c d t : Ptr) (p q : KPath) {err : ℤ} {w' : World Call Trfs}
      → lower_rename a b c d t p q env w ≡ some (err, w')
      → w'.vars ≡ w.vars
  unfolding lower_rename
  lower_rename-vars w a b c d t p q h = ground arith

  lower_rename-Kept :
      (w : World Call Trfs) (a b c d t : Ptr) (p q : KPath) {err : ℤ} {w' : World Call Trfs}
      → lower_rename a b c d t p q env w ≡ some (err, w')
      → Kept i w w'
  lower_rename-Kept w a b c d t p q h = ground (arith, lower_rename-vars w a b c d t p q h)

  pub lower_rename-Tidy :
      (w : World Call Trfs) (a b c d t : Ptr) (p q : KPath) {err : ℤ} {w' : World Call Trfs}
      → lower_rename a b c d t p q env w ≡ some (err, w')
      → Tidy i w w'
  lower_rename-Tidy w a b c d t p q h =
      (lower_rename-Balanced w a b c d t p q h, lower_rename-Kept w a b c d t p q h)
