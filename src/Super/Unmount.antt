-- ===== src/Super/Unmount.antt =====
-- What an unmount leaves.
use trace_file_system.Prelude.{
  ℕ, ◌+◌, ◌==ℤ◌, ==ℤ_self, false, refl, ◌≡◌, Option, none, some, [], ◌∷◌, arith, if◌then◌else◌,
  ◌&&◌,
}
use trace_file_system.Exec.{Trace, Env, World}
use trace_file_system.Kernel.{
  Ptr, null, is_err, SbInfo, Trfs, Call, filp_close, s_active_dec, vfs_unlink, mutex_destroy,
  f_path_dentry, d_parent, d_inode, kfree, free, sb_info, update,
}
use trace_file_system.Kernel.Path.{trfs_set_lower_super}
use trace_file_system.Inode.Traced.{called}
use trace_file_system.Super.{safe_remove, safe_filpclose, put_info, trfs_put_super}

-- How often a trace has closed the file `f`, and released the superblock `sb`.
abbrev pub closed : Ptr → Trace Call → ℕ
closed f [] = 0
closed f ((filp_close g, r) ∷ t) = (if g ==ℤ f then 1 else 0) + closed f t
closed f (_ ∷ t) = closed f t

abbrev pub released : Ptr → Trace Call → ℕ
released sb [] = 0
released sb ((s_active_dec p, r) ∷ t) = (if p ==ℤ sb then 1 else 0) + released sb t
released sb (_ ∷ t) = released sb t

-- How often a trace has asked for the dentry `d` in the directory `dir` to be removed, and for any.
abbrev pub unlinked : Ptr → Ptr → Trace Call → ℕ
unlinked dir d [] = 0
unlinked dir d ((vfs_unlink p c, r) ∷ t) =
    (if (p ==ℤ dir) && (c ==ℤ d) then 1 else 0) + unlinked dir d t
unlinked dir d (_ ∷ t) = unlinked dir d t

abbrev pub unlinks : Trace Call → ℕ
unlinks [] = 0
unlinks ((vfs_unlink p c, r) ∷ t) = 1 + unlinks t
unlinks (_ ∷ t) = unlinks t

-- From `w` to `w'` one name was asked to be removed: that of the dentry which the file `f` had then,
-- in the directory above it.
pub record RemovesName (env : Env Call) (f : Ptr) (w w' : World Call Trfs) : Type 0 where
  pub t : Trace Call
  pub dir : Ptr
  pub d : Ptr
  pub d_of_f : d ≡ env.reply (f_path_dentry f) t
  pub dir_of_d : dir ≡ env.reply (d_inode (env.reply (d_parent d) t)) t
  pub once : unlinked dir d w'.trace ≡ 1 + unlinked dir d w.trace
  pub only : unlinks w'.trace ≡ 1 + unlinks w.trace

-- The private data `info` of `sb` is gone, its log file is closed once and its name was asked to be
-- removed, and the lower superblock is released once.
pub record IsUnmounted (env : Env Call) (sb : Ptr) (info : SbInfo) (w w' : World Call Trfs)
    : Type 0 where
  pub gone : w'.vars.s_fs_info sb ≡ none
  pub log_closed : closed info.tr_lower_filep w'.trace ≡ 1 + closed info.tr_lower_filep w.trace
  pub log_removed : RemovesName env info.tr_lower_filep w w'
  pub lower_released : released info.lower_sb w'.trace ≡ 1 + released info.lower_sb w.trace

-- A run that ends in such a state.
pub record Unmounts (env : Env Call) (m : Option (Unit {0} × World Call Trfs)) (sb : Ptr)
    (info : SbInfo) (w : World Call Trfs) : Type 0 where
  pub after : World Call Trfs
  pub runs : m ≡ some (tt, after)
  pub is : IsUnmounted env sb info w after

module _ (env : Env Call) (sb : Ptr) (info : SbInfo) (w : World Call Trfs) where
  abbrev log : Ptr
  log = info.tr_lower_filep

  -- the lower superblock is released and the mutex destroyed
  abbrev let_go : World Call Trfs
  let_go = called env (mutex_destroy sb) (called env (s_active_dec info.lower_sb) w)

  abbrev dentry_of_log : Ptr
  dentry_of_log = env.reply (f_path_dentry log) let_go.trace

  abbrev dir_of_log : Ptr
  dir_of_log = env.reply (d_inode (env.reply (d_parent dentry_of_log) let_go.trace)) let_go.trace

  abbrev unmounted : World Call Trfs
  unmounted =
      let v = called env (free (sb_info sb)) (
        called env (kfree info.tr_page) (
          called env (filp_close log) (called env (vfs_unlink dir_of_log dentry_of_log) let_go))) in
      record v {
        vars = record w.vars {
          s_fs_info =
              update (update w.vars.s_fs_info sb (some (record info { lower_sb = null }))) sb none;
        };
      }

  put_super_runs :
      w.vars.s_fs_info sb ≡ some info
      → (log ==ℤ null) ≡ false
      → is_err log ≡ false
      → trfs_put_super sb env w ≡ some (tt, unmounted)
  unfolding trfs_put_super put_info safe_remove safe_filpclose trfs_set_lower_super
  put_super_runs at there no_error = ground arith

  unmounted-IsUnmounted : IsUnmounted env sb info w unmounted
  unmounted-IsUnmounted = record {
    gone = rw (==ℤ_self sb) refl;
    log_closed = rw (==ℤ_self log) refl;
    log_removed = record {
      t = let_go.trace;
      dir = dir_of_log;
      d = dentry_of_log;
      d_of_f = refl;
      dir_of_d = refl;
      once = rw (==ℤ_self dir_of_log, ==ℤ_self dentry_of_log) refl;
      only = refl;
    };
    lower_released = rw (==ℤ_self info.lower_sb) refl;
  }

-- An unmount of a superblock that has a log file comes to an end, drops its private data, closes the
-- log file, asks for the name that the file has to be removed from its directory, and for no other,
-- and releases the lower superblock, each once.
pub trfs_put_super-Unmounts :
    (env : Env Call) (sb : Ptr) (info : SbInfo) (w : World Call Trfs)
    → w.vars.s_fs_info sb ≡ some info
    → (info.tr_lower_filep ==ℤ null) ≡ false
    → is_err info.tr_lower_filep ≡ false
    → Unmounts env (trfs_put_super sb env w) sb info w
trfs_put_super-Unmounts env sb info w at there no_error = record {
  after = unmounted env sb info w;
  runs = put_super_runs env sb info w at there no_error;
  is = unmounted-IsUnmounted env sb info w;
}
