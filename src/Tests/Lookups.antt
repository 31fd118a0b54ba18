-- ===== src/Tests/Lookups.antt =====
-- A lookup that finds its name.
use trace_file_system.Prelude.{ℤ, pos, ◌≡◌, ◌⊎◌, refl, some, [], ◌∷◌, arith, to_int}
use trace_file_system.Exec.{Trace, Env}
use trace_file_system.Kernel.{
  Call, enomem, is_root, vfs_path_lookup, found_dentry, i_sb, i_state, found_mnt,
}
use trace_file_system.Kernel.Path.{
  trfs_get_lower_path, trfs_put_lower_path, trfs_set_lower_path, trfs_put_reset_lower_path,
}
use trace_file_system.Lookup.{trfs_iget, init_inode, interpose_dentry}
use trace_file_system.Lookup.Find.{
  trfs_lookup, find, lookup_name, positive, negative, setup_lower, copy_found,
}
use trace_file_system.Lookup.Private.{new_dentry_private_data}
use trace_file_system.Lookup.Stacked.{TestsInodes}
use trace_file_system.Lookup.Outcome.{Outcome}
use trace_file_system.Lookup.Found.{trfs_lookup-Outcome}
use trace_file_system.Tests.Handlers.{traced, lower_path}
use trace_file_system.Tests.Mounts.{state_of}

-- The lower name is there, and its inode is new to trfs.
abbrev finding_reply : Call → Trace Call → ℤ
finding_reply (vfs_path_lookup d m s) t = pos 0
finding_reply (is_root d) t = pos 0
finding_reply (i_sb p) t = pos 7
finding_reply (i_state p) t = pos 8
finding_reply found_dentry t = pos 50
finding_reply found_mnt t = pos 51
finding_reply _ t = pos 4096

abbrev finding : Env Call
finding = record { reply = finding_reply; bytes = λ c t. b'a' ∷ [] }

finding-TestsInodes : TestsInodes finding traced.vars.lower_inode
finding-TestsInodes sb lower ino t there old v same = absurd (ground arith)

lookup_runs :
    trfs_lookup (pos 5) (pos 20) (pos 0) finding traced
    ≡ some (pos 4096, state_of (trfs_lookup (pos 5) (pos 20) (pos 0) finding traced))
unfolding trfs_lookup find lookup_name positive negative setup_lower copy_found trfs_get_lower_path
    trfs_put_lower_path trfs_set_lower_path trfs_put_reset_lower_path interpose_dentry trfs_iget
    init_inode new_dentry_private_data to_int
lookup_runs = refl

trfs_lookup-Outcome_example :
    (pos 4096 ≡ enomem)
    ⊎ Outcome finding
        (pos 20)
        lower_path
        (pos 4096)
        (state_of (trfs_lookup (pos 5) (pos 20) (pos 0) finding traced)).vars
trfs_lookup-Outcome_example =
    trfs_lookup-Outcome finding traced (pos 5) (pos 20) (pos 0) lower_path refl (λ t. refl)
      finding-TestsInodes lookup_runs
