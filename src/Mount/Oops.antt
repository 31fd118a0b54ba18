-- ===== src/Mount/Oops.antt =====
-- The error paths of a mount once the log is open.
use trace_file_system.Prelude.{◌≡◌, ◌⊎◌, inl, inr, ℤ, true, none, some, Option-cases, arith}
use trace_file_system.Exec.{Env, World, Trace}
use trace_file_system.Kernel.{
  Ptr, null, is_err, KPath, Trfs, Call, update, d_sb, d_inode, d_make_root, iget5_locked, i_ino,
  s_active_inc, set_sb_fields,
}
use trace_file_system.Kernel.Path.{trfs_set_lower_super}
use trace_file_system.Inode.Traced.{called}
use trace_file_system.Lookup.{trfs_iget}
use trace_file_system.Mount.{make_root, stack_super}
use trace_file_system.Mount.Fresh.{out_sput-oops}

module _ (env : Env Call) (sb : Ptr) where
  -- The kernel has no inode to give.
  abbrev pub NoInode : Type 0
  NoInode =
      (sb : Ptr) (n : ℤ) (lower : Ptr) (t : Trace Call)
      → env.reply (iget5_locked sb n lower) t ≡ null

  -- The kernel makes no root.
  abbrev pub NoRoot : Type 0
  NoRoot = (inode : Ptr) (t : Trace Call) → env.reply (d_make_root inode) t ≡ null

  trfs_iget-fails :
      NoInode
      → (w : World Call Trfs) (lower : Ptr) {i : Ptr} {w' : World Call Trfs}
      → trfs_iget sb lower env w ≡ some (i, w')
      → is_err i ≡ true
  unfolding trfs_iget
  trfs_iget-fails lacks w lower h =
      ground (arith, lacks sb (env.reply (i_ino lower) w.trace) lower w.trace)

  make_root-oops :
      NoRoot
      → (w : World Call Trfs) (lower_sb inode f : Ptr) (path : KPath)
      → make_root sb lower_sb inode f path env w ≡ none
  unfolding make_root
  make_root-oops lacks w lower_sb inode f path = grind (arith, lacks inode w.trace, out_sput-oops)

  -- A mount that has opened its log, and then gets no inode for its root or no root dentry, does not
  -- return an error: it reads through the private data that it has dropped.
  pub stack_super-oops :
      NoInode ⊎ NoRoot
      → (w : World Call Trfs) (f : Ptr) (path : KPath) → stack_super sb f path env w ≡ none
  unfolding stack_super trfs_set_lower_super
  stack_super-oops lacks w f path = elim (Option-cases (w.vars.s_fs_info sb)) [
    | inl e ↦ ground arith
    | inr (info, e) ↦
        let lower_sb = env.reply (d_sb path.dentry) w.trace in
        let v = called env (set_sb_fields sb lower_sb) (called env (s_active_inc lower_sb) w) in
        let w1 : World Call Trfs = record v {
          vars = record w.vars {
            s_fs_info = update w.vars.s_fs_info sb (some (record info { lower_sb = lower_sb }));
          };
        } in
        let lower = env.reply (d_inode path.dentry) w1.trace in
        elim (Option-cases (trfs_iget sb lower env w1)) [
          | inl e1 ↦ ground arith
          | inr ((inode, w2), e1) ↦ elim lacks [
            | inl inodes ↦ grind (arith, trfs_iget-fails inodes w1 lower e1, out_sput-oops)
            | inr roots ↦
                grind (arith, make_root-oops roots w2 lower_sb inode f path, out_sput-oops)
          ]
        ]
  ]
