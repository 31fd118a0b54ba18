-- ===== src/Lookup/Private.antt =====
-- trfs/lookup.c: the private data of dentries and its cache. The lock in it is fresh memory.
use trace_file_system.Prelude.{ℤ, pos, ◌==ℤ◌, Option, none, some, if◌then◌else◌}
use trace_file_system.Exec.{pure, gets, modify, call, call_, ◌>>=◌, ◌>>◌}
use trace_file_system.Kernel.{
  Ptr, null, KPath, enomem, update, alloc, free, dentry_info, create_cache, destroy_cache,
  dentry_cache,
}
use trace_file_system.Kernel.Path.{Kernel, no_path, store_path}

unfoldable pub trfs_init_dentry_cache : Kernel ℤ
trfs_init_dentry_cache = do
  cachep ← call (create_cache dentry_cache)
  modify (λ s. record s { dentry_cachep = cachep })
  pure (if cachep ==ℤ null then enomem else pos 0)

unfoldable pub trfs_destroy_dentry_cache : Kernel Unit
trfs_destroy_dentry_cache = do
  cachep ← gets (λ s. s.dentry_cachep)
  if cachep ==ℤ null then pure tt else call_ (destroy_cache dentry_cache)

-- The rest of `free_dentry_private_data` for a dentry that is not NULL
unfoldable pub free_private : Ptr → Option KPath → Kernel Unit
free_private dentry none = pure tt
free_private dentry (some path) = do
  call_ (free (dentry_info dentry))
  modify (λ s. record s { d_fsdata = update s.d_fsdata dentry none })

unfoldable pub free_dentry_private_data : Ptr → Kernel Unit
unfolding free_private
free_dentry_private_data dentry =
    if dentry ==ℤ null
    then pure tt
    else do fsdata ← gets (λ s. s.d_fsdata dentry); free_private dentry fsdata

unfoldable pub new_dentry_private_data : Ptr → Kernel ℤ
new_dentry_private_data dentry = do
  info ← call (alloc (dentry_info dentry))
  if info ==ℤ null then pure enomem else do store_path dentry no_path; pure (pos 0)
