-- ===== src/Ioctl/Bitmap.antt =====
-- The two commands against the mask of the mount.
use trace_file_system.Prelude.{
  ℕ, ℤ, pos, is_neg, ◌≡◌, ◌≢◌, ==ℤ_self, true, false, refl, inl, inr, Bool-cases, ◌==◌, ◌==ℤ◌,
  if◌then◌else◌, Option, none, some, [], ◌∷◌, ap, ◌∙◌, arith,
}
use trace_file_system.Exec.{Trace, Env, World}
use trace_file_system.Kernel.{
  Ptr, SbInfo, Trfs, Call, update, user_bitmap, user_mntpath, copy_to_user, copy_from_user,
  getname_kernel, filp_open, f_inode, i_sb, s_type_name, mutex_lock, mutex_unlock, putname,
  filp_close, eacces, einval,
}
use trace_file_system.Dump.{trfs_name}
use trace_file_system.Balance.{Resource, mutexes, taken, given, Returned}
use trace_file_system.Inode.Traced.{called}
use trace_file_system.Ioctl.{tr_ioctl, tr_get_bmap, tr_set_bmap, with_mount, set_bitmap, get_bitmap}

-- The argument `arg` names the trfs mount `sb` and carries `bitmap`, at any time.
pub record Names (env : Env Call) (arg : Ptr) (bitmap : ℕ) (sb : Ptr) : Type 0 where
  pub copied : (t : Trace Call) → env.reply (copy_from_user arg) t ≡ pos 0
  pub bits : (t : Trace Call) → env.reply (user_bitmap arg) t ≡ pos bitmap
  pub name : (p : Ptr) (t : Trace Call) → is_neg (env.reply (getname_kernel p) t) ≡ false
  pub file : (p : Ptr) (t : Trace Call) → is_neg (env.reply (filp_open p 0 0) t) ≡ false
  pub super : (i : Ptr) (t : Trace Call) → env.reply (i_sb i) t ≡ sb
  pub trfs : (t : Trace Call) → env.bytes (s_type_name sb) t ≡ trfs_name

-- The newest call.
abbrev pub last_call : Trace Call → Option Call
last_call [] = none
last_call ((c, r) ∷ t) = some c

-- What trfs keeps, with `bitmap` as the mask of the mount.
abbrev stored_mask : World Call Trfs → Ptr → SbInfo → ℕ → Trfs
stored_mask w sb info bitmap = record w.vars {
  s_fs_info = update w.vars.s_fs_info sb (some (record info { umask = bitmap }));
}

-- The run `m` of the command `cmd` returns `ret`: if it is the SET the mask is `bitmap` and `ret`
-- is 0, and else nothing is stored; with no command `ret` is -EINVAL; and mutexes that were taken
-- were given back.
pub record Answered (m : Option (ℤ × World Call Trfs)) (sb : Ptr) (w : World Call Trfs)
    (cmd bitmap : ℕ) (info : SbInfo) : Type 0 where
  pub ret : ℤ
  pub after : World Call Trfs
  pub runs : m ≡ some (ret, after)
  pub stored : after.vars ≡ (if cmd == tr_set_bmap then stored_mask w sb info bitmap else w.vars)
  pub unlocked : Returned mutexes w after
  pub set : cmd ≡ tr_set_bmap → ret ≡ pos 0
  pub other : cmd ≢ tr_get_bmap → cmd ≢ tr_set_bmap → ret ≡ einval

-- With such an argument the handler gets as far as the mask.
record Reaches (m : Option (ℤ × World Call Trfs)) (env : Env Call) (w : World Call Trfs)
    (bitmap : ℕ) (sb : Ptr)
    (k : ℕ → Ptr → Ptr → Ptr → Env Call → World Call Trfs → Option (ℤ × World Call Trfs))
    : Type 0 where
  path : Ptr
  filp : Ptr
  trace : Trace Call
  runs : m ≡ k bitmap path filp sb env (record w { trace = trace })
  mutexes :
      (taken Resource.mutexes trace ≡ taken Resource.mutexes w.trace)
      × (given Resource.mutexes trace ≡ given Resource.mutexes w.trace)

module _ (env : Env Call) (w : World Call Trfs) (arg : Ptr) (bitmap : ℕ) (sb : Ptr)
    (names : Names env arg bitmap sb) where
  with_mount-Reaches :
      (k : ℕ → Ptr → Ptr → Ptr → Env Call → World Call Trfs → Option (ℤ × World Call Trfs))
      → Reaches (with_mount arg k env w) env w bitmap sb k
  unfolding with_mount taken given
  with_mount-Reaches k =
      let t1 : Trace Call = (copy_from_user arg, pos 0) ∷ w.trace in
      let mntpath : Ptr = env.reply (user_mntpath arg) t1 in
      let path : Ptr = env.reply (getname_kernel mntpath) t1 in
      let t2 : Trace Call = (getname_kernel mntpath, path) ∷ t1 in
      let filp : Ptr = env.reply (filp_open path 0 0) t2 in
      let t3 : Trace Call = (filp_open path 0 0, filp) ∷ t2 in
      record {
        path = path;
        filp = filp;
        trace = t3;
        runs = rw (
          names.copied w.trace,
          names.bits t1,
          names.name mntpath t1,
          names.file path t2,
          names.super (env.reply (f_inode filp) t3) t3,
          names.trfs t3,
        );
        mutexes = (omega arith, omega arith);
      }

  -- A SET that returns, through an argument that names a mounted trfs, has returned 0, and has
  -- stored the bitmap in the superblock of the mount and changed nothing else that trfs keeps.
  pub set_bitmap_stores :
      (info : SbInfo) {ret : ℤ} {w' : World Call Trfs}
      → w.vars.s_fs_info sb ≡ some info
      → tr_ioctl tr_set_bmap arg env w ≡ some (ret, w')
      → (ret ≡ pos 0)
        × (w'.vars ≡ record w.vars {
          s_fs_info = update w.vars.s_fs_info sb (some (record info { umask = bitmap }));
        })
  unfolding tr_ioctl set_bitmap
  set_bitmap_stores info at h = ground (arith, (with_mount-Reaches set_bitmap).runs)

  -- GET copies the mask of the mount out as its last call, and stores nothing.
  pub get_bitmap_copies :
      (info : SbInfo) {ret : ℤ} {w' : World Call Trfs}
      → w.vars.s_fs_info sb ≡ some info
      → tr_ioctl tr_get_bmap arg env w ≡ some (ret, w')
      → (w'.vars ≡ w.vars) × (last_call w'.trace ≡ some (copy_to_user arg info.umask))
  unfolding tr_ioctl get_bitmap
  get_bitmap_copies info at h = ground (arith, (with_mount-Reaches (λ bitmap. get_bitmap arg)).runs)

  get-Answered :
      (cmd : ℕ) (info : SbInfo)
      → w.vars.s_fs_info sb ≡ some info
      → (cmd == tr_get_bmap) ≡ true
      → Answered (tr_ioctl cmd arg env w) sb w cmd bitmap info
  unfolding tr_ioctl get_bitmap taken given
  get-Answered cmd info at e =
      let there = with_mount-Reaches (λ bitmap. get_bitmap arg) in
      let w1 =
        called env (mutex_unlock sb)
          (called env (mutex_lock sb) (record w { trace = there.trace })) in
      let w2 =
        called env (copy_to_user arg info.umask)
          (called env (filp_close there.filp) (called env (putname there.path) w1)) in
      let failed =
        env.reply (copy_to_user arg info.umask)
          (called env (filp_close there.filp) (called env (putname there.path) w1)).trace in
      record {
        ret = if failed ==ℤ pos 0 then pos 0 else eacces;
        after = w2;
        runs = ground (arith, there.runs);
        stored = ground arith;
        unlocked = ground (arith, there.mutexes);
        set = λ h. absurd (ground arith);
        other = λ h h'. absurd (ground arith);
      }

  set-Answered :
      (cmd : ℕ) (info : SbInfo)
      → w.vars.s_fs_info sb ≡ some info
      → (cmd == tr_set_bmap) ≡ true
      → Answered (tr_ioctl cmd arg env w) sb w cmd bitmap info
  unfolding tr_ioctl set_bitmap taken given
  set-Answered cmd info at e =
      let there = with_mount-Reaches set_bitmap in
      let locked = called env (mutex_lock sb) (record w { trace = there.trace }) in
      let w1 : World Call Trfs = record locked { vars = stored_mask w sb info bitmap } in
      let w2 =
        called env (filp_close there.filp)
          (called env (putname there.path) (called env (mutex_unlock sb) w1)) in
      record {
        ret = pos 0;
        after = w2;
        runs = ground (arith, there.runs);
        stored = ground arith;
        unlocked = ground (arith, there.mutexes);
        set = λ h. refl;
        other = λ h h'. absurd (ground arith);
      }

  other-Answered :
      (cmd : ℕ) (info : SbInfo)
      → (cmd == tr_get_bmap) ≡ false
      → (cmd == tr_set_bmap) ≡ false
      → Answered (tr_ioctl cmd arg env w) sb w cmd bitmap info
  unfolding tr_ioctl taken given
  other-Answered cmd info e e1 = record {
    ret = einval;
    after = w;
    runs = ground arith;
    stored = ground arith;
    unlocked = refl;
    set = λ h. absurd (ground arith);
    other = λ h h'. refl;
  }

  -- Through an argument that names a mounted trfs the handler returns, whatever the command. The
  -- mask is the argument's bitmap then if the command is the SET, and else is as it was, as is all
  -- else that trfs keeps; as many mutexes were given back as taken; the SET returns 0, and what is
  -- neither GET nor SET returns -EINVAL.
  pub tr_ioctl_returns :
      (cmd : ℕ) (info : SbInfo)
      → w.vars.s_fs_info sb ≡ some info
      → Answered (tr_ioctl cmd arg env w) sb w cmd bitmap info
  tr_ioctl_returns cmd info at = elim (Bool-cases (cmd == tr_get_bmap)) [
    | inl e ↦ get-Answered cmd info at e
    | inr e ↦ elim (Bool-cases (cmd == tr_set_bmap)) [
      | inl e1 ↦ set-Answered cmd info at e1
      | inr e1 ↦ other-Answered cmd info e e1
    ]
  ]

-- After a SET that returns, through one argument, a GET that returns, through another one for the
-- same mounted trfs, has handed the user that bitmap as its last call, and has stored nothing.
pub get_after_set :
    (env : Env Call) (w w1 w2 : World Call Trfs) (arg arg' : Ptr) (bitmap bitmap' : ℕ) (sb : Ptr)
    (info : SbInfo) (ret ret' : ℤ)
    → Names env arg bitmap sb
    → Names env arg' bitmap' sb
    → w.vars.s_fs_info sb ≡ some info
    → tr_ioctl tr_set_bmap arg env w ≡ some (ret, w1)
    → tr_ioctl tr_get_bmap arg' env w1 ≡ some (ret', w2)
    → (w2.vars ≡ w1.vars) × (last_call w2.trace ≡ some (copy_to_user arg' bitmap))
get_after_set env w w1 w2 arg arg' bitmap bitmap' sb info ret ret' n n' at h h' =
    let stored = set_bitmap_stores env w arg bitmap sb n info at h in
    let info' : SbInfo = record info { umask = bitmap } in
    let at' : w1.vars.s_fs_info sb ≡ some info' =
      ap (λ v. v.s_fs_info sb) stored.1 ∙ rw (==ℤ_self sb) in
    get_bitmap_copies env w1 arg' bitmap' sb n' info' at' h'
