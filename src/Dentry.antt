-- ===== src/Dentry.antt =====
-- trfs/dentry.c: whether a dentry is still valid, and its release.
use trace_file_system.Prelude.{ℕ, ℤ, pos, pos_part, ◌==◌, [], ◌∷◌, bit_and, if◌then◌else◌}
use trace_file_system.Exec.{pure, call, peek, ◌>>=◌, ◌>>◌}
use trace_file_system.Kernel.{Ptr, echild, d_flags, invoke, d_revalidate}
use trace_file_system.Kernel.Path.{
  Kernel, trfs_get_lower_path, trfs_put_lower_path, trfs_put_reset_lower_path,
}
use trace_file_system.Lookup.Private.{free_dentry_private_data}

-- LOOKUP_RCU and DCACHE_OP_REVALIDATE
abbrev lookup_rcu : ℕ
lookup_rcu = 0x40

abbrev dcache_op_revalidate : ℕ
dcache_op_revalidate = 4

unfoldable pub trfs_d_revalidate : Ptr → ℤ → Kernel ℤ
trfs_d_revalidate dentry flags =
    if bit_and (pos_part flags) lookup_rcu == 0
    then (do
      lower_path ← trfs_get_lower_path dentry
      lower_flags ← peek (d_flags lower_path.dentry)
      err ←
          (if bit_and (pos_part lower_flags) dcache_op_revalidate == 0
            then pure (pos 1)
            else call (invoke d_revalidate lower_path.dentry (flags ∷ [])))
      trfs_put_lower_path dentry lower_path
      pure err)
    else pure echild

unfoldable pub trfs_d_release : Ptr → Kernel Unit
trfs_d_release dentry = do trfs_put_reset_lower_path dentry; free_dentry_private_data dentry
