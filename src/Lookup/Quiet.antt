-- ===== src/Lookup/Quiet.antt =====
-- The lookup of a name, and the operations of trfs/dentry.c, leave the log and the mount as they
-- are, on each branch.
use trace_file_system.Prelude.{
  ℕ, ℤ, ◌≡◌, some, List, ◌==ℤ◌, if◌then◌else◌, to_int, arith, Option-cases, inl, inr,
}
use trace_file_system.Exec.{Env, World}
use trace_file_system.Kernel.{
  Ptr, null, Trfs, Call, KPath, d_sb, d_name, set_d_op, vfs_path_lookup, found_dentry, found_mnt,
  dget_parent,
}
use trace_file_system.Kernel.Path.{
  trfs_get_lower_path, trfs_put_lower_path, trfs_put_reset_lower_path, trfs_set_lower_path,
}
use trace_file_system.Dump.Log.{log_file}
use trace_file_system.Lookup.{interpose_dentry}
use trace_file_system.Lookup.Private.{
  free_dentry_private_data, free_private, new_dentry_private_data,
}
use trace_file_system.Lookup.Find.{
  positive, setup_lower, negative, lookup_name, copy_found, find, trfs_lookup,
}
use trace_file_system.Lookup.Interpose.{SameLog, interpose_dentry-SameLog}
use trace_file_system.Dentry.{trfs_d_revalidate, trfs_d_release}
use trace_file_system.Inode.Traced.{called}

module _ (env : Env Call) (f : Ptr) (w : World Call Trfs) where
  pub trfs_d_revalidate-SameLog :
      (d : Ptr) (flags : ℤ) {err : ℤ} {w' : World Call Trfs}
      → trfs_d_revalidate d flags env w ≡ some (err, w')
      → SameLog f w w'
  unfolding trfs_d_revalidate trfs_get_lower_path trfs_put_lower_path log_file
  trfs_d_revalidate-SameLog d flags h = ground arith

  trfs_set_lower_path-SameLog :
      (w : World Call Trfs) (d : Ptr) (path : KPath) {u : Unit {0}} {w' : World Call Trfs}
      → trfs_set_lower_path d path env w ≡ some (u, w')
      → SameLog f w w'
  unfolding trfs_set_lower_path log_file
  trfs_set_lower_path-SameLog w d path h = ground arith

  positive-SameLog :
      (w : World Call Trfs) (d : Ptr) (path : KPath) {ret : Ptr} {w' : World Call Trfs}
      → positive d path env w ≡ some (ret, w')
      → SameLog f w w'
  unfolding positive trfs_put_reset_lower_path log_file
  positive-SameLog w d path h = elim (Option-cases (trfs_set_lower_path d path env w)) [
    | inl e ↦ ground arith
    | inr ((u, w1), e) ↦
        let sb = env.reply (d_sb d) w1.trace in
        elim (Option-cases (interpose_dentry d sb path env w1)) [
          | inl e1 ↦ ground arith
          | inr ((r, w2), e1) ↦ ground (
            arith,
            trfs_set_lower_path-SameLog w d path e,
            interpose_dentry-SameLog env f w1 d sb path e1,
          )
        ]
  ]

  negative-SameLog :
      (w : World Call Trfs) (d : Ptr) (flags err : ℤ) (name : List ℕ) (path : KPath) {ret : Ptr}
      {w' : World Call Trfs}
      → negative d flags err name path env w ≡ some (ret, w')
      → SameLog f w w'
  unfolding negative setup_lower trfs_set_lower_path log_file
  negative-SameLog w d flags err name path h = ground arith

  lookup_name-SameLog :
      (w : World Call Trfs) (d : Ptr) (flags : ℤ) (path : KPath) {ret : Ptr} {w' : World Call Trfs}
      → lookup_name d flags path env w ≡ some (ret, w')
      → SameLog f w w'
  unfolding lookup_name log_file
  lookup_name-SameLog w d flags path h =
      let w1 = called env (set_d_op d) w in
      let name = env.bytes (d_name d) w1.trace in
      let w2 = called env (vfs_path_lookup path.dentry path.mnt name) w1 in
      let err = to_int (env.reply (vfs_path_lookup path.dentry path.mnt name) w1.trace) in
      let there : KPath = record {
        dentry = env.reply found_dentry w2.trace;
        mnt = env.reply found_mnt w2.trace;
      } in
      elim (Option-cases (positive d there env w2)) [
        | inl e ↦ elim (Option-cases (negative d flags err name path env w2)) [
          | inl e1 ↦ ground arith
          | inr ((r, w3), e1) ↦ ground (arith, negative-SameLog w2 d flags err name path e1)
        ]
        | inr ((r, w3), e) ↦ elim (Option-cases (negative d flags err name path env w2)) [
          | inl e1 ↦ ground (arith, positive-SameLog w2 d there e)
          | inr ((r', w3'), e1) ↦
              ground
                (arith, positive-SameLog w2 d there e, negative-SameLog w2 d flags err name path e1)
        ]
      ]

  new_dentry_private_data-SameLog :
      (w : World Call Trfs) (d : Ptr) {err : ℤ} {w' : World Call Trfs}
      → new_dentry_private_data d env w ≡ some (err, w')
      → SameLog f w w'
  unfolding new_dentry_private_data log_file
  new_dentry_private_data-SameLog w d h = ground arith

  copy_found-SameLog :
      (w : World Call Trfs) (d parent : Ptr) {u : Unit {0}} {w' : World Call Trfs}
      → copy_found d parent env w ≡ some (u, w')
      → SameLog f w w'
  unfolding copy_found log_file
  copy_found-SameLog w d parent h = ground arith

  find-SameLog :
      (w : World Call Trfs) (d : Ptr) (flags : ℤ) (parent : Ptr) (path : KPath) {ret : Ptr}
      {w' : World Call Trfs}
      → find d flags parent path env w ≡ some (ret, w')
      → SameLog f w w'
  unfolding find log_file
  find-SameLog w d flags parent path h = elim (Option-cases (new_dentry_private_data d env w)) [
    | inl e ↦ ground arith
    | inr ((err, w1), e) ↦ elim (Option-cases (lookup_name d flags path env w1)) [
      | inl e1 ↦ ground (arith, new_dentry_private_data-SameLog w d e)
      | inr ((ret, w2), e1) ↦
          let same = new_dentry_private_data-SameLog w d e in
          let same2 = lookup_name-SameLog w1 d flags path e1 in
          let at = if ret ==ℤ null then d else ret in
          elim (Option-cases (copy_found at parent env w2)) [
            | inl e2 ↦ ground arith
            | inr ((u, w3), e2) ↦ ground (arith, copy_found-SameLog w2 at parent e2)
          ]
    ]
  ]

  pub trfs_lookup-SameLog :
      (dir d : Ptr) (flags : ℤ) {ret : Ptr} {w' : World Call Trfs}
      → trfs_lookup dir d flags env w ≡ some (ret, w')
      → SameLog f w w'
  unfolding trfs_lookup trfs_get_lower_path trfs_put_lower_path log_file
  trfs_lookup-SameLog dir d flags h =
      let parent = env.reply (dget_parent d) w.trace in
      let w1 = called env (dget_parent d) w in
      elim (Option-cases (trfs_get_lower_path parent env w1)) [
        | inl e ↦ ground arith
        | inr ((path, w2), e) ↦ elim (Option-cases (find d flags parent path env w2)) [
          | inl e1 ↦ ground arith
          | inr ((r, w3), e1) ↦ ground (arith, find-SameLog w2 d flags parent path e1)
        ]
      ]

  pub trfs_d_release-SameLog :
      (d : Ptr) {u : Unit {0}} {w' : World Call Trfs}
      → trfs_d_release d env w ≡ some (u, w')
      → SameLog f w w'
  unfolding trfs_d_release trfs_put_reset_lower_path free_dentry_private_data free_private log_file
  trfs_d_release-SameLog d h = ground arith
