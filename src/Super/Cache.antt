-- ===== src/Super/Cache.antt =====
-- trfs/super.c: the cache of inodes.
use trace_file_system.Prelude.{ℤ, pos, ◌==ℤ◌, if◌then◌else◌}
use trace_file_system.Exec.{pure, gets, modify, call, call_, ◌>>=◌, ◌>>◌}
use trace_file_system.Kernel.{null, enomem, create_cache, destroy_cache, inode_cache}
use trace_file_system.Kernel.Path.{Kernel}

unfoldable pub trfs_init_inode_cache : Kernel ℤ
trfs_init_inode_cache = do
  cachep ← call (create_cache inode_cache)
  modify (λ s. record s { inode_cachep = cachep })
  pure (if cachep ==ℤ null then enomem else pos 0)

unfoldable pub trfs_destroy_inode_cache : Kernel Unit
trfs_destroy_inode_cache = do
  cachep ← gets (λ s. s.inode_cachep)
  if cachep ==ℤ null then pure tt else call_ (destroy_cache inode_cache)
