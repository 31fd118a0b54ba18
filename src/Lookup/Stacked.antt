-- ===== src/Lookup/Stacked.antt =====
-- The inode of trfs that is put behind a dentry stands on the inode of the lower dentry.
use trace_file_system.Prelude.{
  ℤ, pos, ◌≡◌, ◌⊎◌, inl, inr, ◌==ℤ◌, true, false, some, refl, arith, Option-cases, Bool-cases, ◌∷◌,
}
use trace_file_system.Exec.{Env, World, Trace}
use trace_file_system.Kernel.{
  Ptr, null, is_err, KPath, Trfs, Call, d_inode, iget5_locked, i_state, i_ino, igrab, set_i_ino,
  d_splice_alias,
}
use trace_file_system.Inode.Traced.{called}
use trace_file_system.Lookup.{is_new, trfs_inode_test, init_inode, trfs_iget, interpose_dentry}

-- While `lower_inode` says which lower inode an inode of trfs has, the inode cache finds, for a lower
-- inode, an inode of trfs that passes the test of the module, or makes a new one.
abbrev pub TestsInodes : Env Call → (Ptr → Ptr) → Type 0
TestsInodes env lower_inode =
    (sb lower : Ptr) (ino : ℤ) (t : Trace Call)
    → let inode = env.reply (iget5_locked sb ino lower) t in
      (inode ==ℤ null) ≡ false
      → is_new (env.reply (i_state inode) ((iget5_locked sb ino lower, inode) ∷ t)) ≡ false
      → (v : World Call Trfs) → v.vars.lower_inode ≡ lower_inode
      → trfs_inode_test inode lower env v ≡ some (pos 1, v)

-- `ret` is what the kernel made of the dentry `d` and an inode of trfs that stands on the inode of
-- the lower dentry of `path`.
pub record IsStacked (env : Env Call) (d : Ptr) (path : KPath) (ret : Ptr) (v : Trfs) : Type 0 where
  pub inode : Ptr
  pub t : Trace Call
  pub t' : Trace Call
  pub lower : v.lower_inode inode ≡ env.reply (d_inode path.dentry) t
  pub answers : ret ≡ env.reply (d_splice_alias inode d) t'

module _ (env : Env Call) where
  tested :
      (w : World Call Trfs) (inode lower : Ptr)
      → trfs_inode_test inode lower env w ≡ some (pos 1, w)
      → w.vars.lower_inode inode ≡ lower
  unfolding trfs_inode_test
  tested w inode lower h = ground arith

  tests-lower :
      (w : World Call Trfs)
      → TestsInodes env w.vars.lower_inode
      → (sb lower : Ptr) (ino : ℤ) (t : Trace Call)
      → (env.reply (iget5_locked sb ino lower) t ==ℤ null) ≡ false
      → is_new (
          env.reply
            (i_state (env.reply (iget5_locked sb ino lower) t))
            ((iget5_locked sb ino lower, env.reply (iget5_locked sb ino lower) t) ∷ t))
        ≡ false
      → w.vars.lower_inode (env.reply (iget5_locked sb ino lower) t) ≡ lower
  tests-lower w tests sb lower ino t there old =
      tested w _ lower (tests sb lower ino t there old w refl)

  init_inode-lower :
      (w : World Call Trfs) (inode lower : Ptr) {p : Ptr} {w' : World Call Trfs}
      → init_inode inode lower env w ≡ some (p, w')
      → (p ≡ inode) × (w'.vars.lower_inode p ≡ lower) × (w'.vars.d_fsdata ≡ w.vars.d_fsdata)
  unfolding init_inode
  init_inode-lower w inode lower h = ground arith

  trfs_iget-lower :
      (w : World Call Trfs) (sb lower : Ptr) {p : Ptr} {w' : World Call Trfs}
      → TestsInodes env w.vars.lower_inode
      → trfs_iget sb lower env w ≡ some (p, w')
      → (w'.vars.d_fsdata ≡ w.vars.d_fsdata) × ((is_err p ≡ true) ⊎ (w'.vars.lower_inode p ≡ lower))
  unfolding trfs_iget
  trfs_iget-lower w sb lower {p} {w'} tests h =
      let ino = env.reply (i_ino lower) w.trace in
      let inode = env.reply (iget5_locked sb ino lower) w.trace in
      let w1 = called env (iget5_locked sb ino lower) w in
      let w2 = called env (igrab lower) (called env (set_i_ino inode ino) w1) in
      elim (Option-cases (init_inode inode lower env w2)) [
        | inl e ↦ ground (arith, tests-lower w tests sb lower ino w.trace)
        | inr ((q, w3), e) ↦
            ground
              (arith, tests-lower w tests sb lower ino w.trace, init_inode-lower w2 inode lower e)
      ]

  -- A dentry that is linked has an inode that stands on the inode of its lower dentry; the private
  -- data of dentries are as they were.
  pub interpose_dentry-IsStacked :
      (w : World Call Trfs) (d sb : Ptr) (path : KPath) {p : Ptr} {w' : World Call Trfs}
      → TestsInodes env w.vars.lower_inode
      → interpose_dentry d sb path env w ≡ some (p, w')
      → (w'.vars.d_fsdata ≡ w.vars.d_fsdata) × ((is_err p ≡ true) ⊎ IsStacked env d path p w'.vars)
  unfolding interpose_dentry
  interpose_dentry-IsStacked w d sb path {p} {w'} tests h =
      let lower = env.reply (d_inode path.dentry) w.trace in
      elim (Option-cases (trfs_iget sb lower env w)) [
        | inl e ↦ absurd (ground arith)
        | inr ((i, w1), e) ↦
            let (fs, stacked) = trfs_iget-lower w sb lower tests e in
            (
              ground arith,
              elim (Bool-cases (is_err p)) [
                | inl failed ↦ inl failed
                | inr fine ↦ inr (record {
                  inode = i;
                  t = w.trace;
                  t' = w1.trace;
                  lower = ground arith;
                  answers = ground arith;
                })
              ],
            )
      ]
