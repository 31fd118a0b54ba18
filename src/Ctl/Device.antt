-- ===== src/Ctl/Device.antt =====
-- The control program on one side of the device and the handler of hw2/tr_ioctl.c on the other.
use trace_file_system.Prelude.{
  ℕ, ℤ, pos, negsuc, is_neg, ◌≡◌, refl, ap, ◌∙◌, none, some, List, [], ◌∷◌, arith, if◌then◌else◌,
  ==ℤ_self,
}
use trace_file_system.Exec.{Trace, Env, World}
use trace_file_system.Kernel.{Ptr, SbInfo, Trfs, Call, copy_to_user}
use trace_file_system.Ioctl.{tr_ioctl, tr_get_bmap, tr_set_bmap}
use trace_file_system.Ioctl.Bitmap.{Names, last_call, set_bitmap_stores, get_after_set}
use trace_file_system.Ctl.{parse_bitmap, parse_args}
use trace_file_system.Ctl.Print.{print_bitmap}
use trace_file_system.Ctl.Main.{
  Sys, ioctl, open_device, print_path, print_line, close, arg_bitmap, main, main_command,
  run_command, run_option, get_bitmap, set_bitmap,
}

-- What the C library makes of the value of a handler: a negative one is -1.
abbrev pub as_ioctl : ℤ → ℤ
as_ioctl ret = if is_neg ret then negsuc 0 else ret

-- The `ioctl` `c` of a process in `env` is handled by `tr_ioctl cmd arg` in the kernel `kenv`,
-- which goes from `w` to `w'` and returns `ret`.
pub record IsHandled (env : Env Sys) (kenv : Env Call) (c : Sys) (cmd : ℕ) (arg : Ptr) (ret : ℤ)
    (w w' : World Call Trfs) : Type 0 where
  pub runs : tr_ioctl cmd arg kenv w ≡ some (ret, w')
  pub answered : (t : Trace Sys) → env.reply c t ≡ as_ioctl ret
  -- what `copy_to_user` has written is there
  pub written :
      (bitmap : ℕ) (t : Trace Sys)
      → last_call w'.trace ≡ some (copy_to_user arg bitmap)
      → ret ≡ pos 0
      → env.reply arg_bitmap ((c, as_ioctl ret) ∷ t) ≡ pos bitmap

-- The trace of a run that has opened the device as `fd`, and closed it with the reply `closed`:
-- `done` are the calls between.
abbrev pub run_trace : Env Sys → List ℕ → (Trace Sys → Trace Sys) → Trace Sys → Trace Sys
run_trace env mntpath done t =
    let t1 : Trace Sys = (print_path mntpath, env.reply (print_path mntpath) t) ∷ t in
    let fd : ℤ = env.reply open_device t1 in
    let t2 : Trace Sys = done ((open_device, fd) ∷ t1) in (close fd, env.reply (close fd) t2) ∷ t2

-- The calls of `trctl <text> <mntpath>` and of `trctl <mntpath>` between the opening of the device
-- and its closing, where the `ioctl` succeeds.
abbrev pub set_done : ℕ → ℕ → List ℕ → Trace Sys → Trace Sys
set_done fd bitmap mntpath t = (ioctl (pos fd) tr_set_bmap (some bitmap) mntpath, pos 0) ∷ t

abbrev pub get_done : Env Sys → ℕ → ℕ → List ℕ → Trace Sys → Trace Sys
get_done env fd bitmap mntpath t =
    let t' : Trace Sys = (ioctl (pos fd) tr_get_bmap none mntpath, pos 0) ∷ t in
    (print_line (print_bitmap bitmap), env.reply (print_line (print_bitmap bitmap)) t') ∷ t'

-- A run that exits with 0 and has made those calls between the opening and the closing.
abbrev pub Runs :
    Env Sys → World Sys (Unit {0}) → List (List ℕ) → List ℕ → (Trace Sys → Trace Sys) → Type 0
Runs env v args mntpath done =
    main args env v ≡ some (pos 0, record v { trace = run_trace env mntpath done v.trace })

module _ (env : Env Sys) (v : World Sys (Unit {0})) (fd : ℕ) (mntpath : List ℕ)
    (opened : (t : Trace Sys) → env.reply open_device t ≡ pos fd) where
  set_run :
      (text : List ℕ) (bitmap : ℕ)
      → parse_bitmap text ≡ some bitmap
      → ((t : Trace Sys) → env.reply (ioctl (pos fd) tr_set_bmap (some bitmap) mntpath) t ≡ pos 0)
      → Runs env v (text ∷ mntpath ∷ []) mntpath (set_done fd bitmap mntpath)
  unfolding main main_command run_command run_option set_bitmap parse_args
  set_run text bitmap parsed answered =
      let t1 : Trace Sys = (print_path mntpath, env.reply (print_path mntpath) v.trace) ∷ v.trace in
      ground (arith, parsed, opened t1, answered ((open_device, pos fd) ∷ t1))

  get_run :
      (bitmap : ℕ)
      → ((t : Trace Sys) → env.reply (ioctl (pos fd) tr_get_bmap none mntpath) t ≡ pos 0)
      → ((t : Trace Sys)
          → env.reply arg_bitmap ((ioctl (pos fd) tr_get_bmap none mntpath, pos 0) ∷ t)
            ≡ pos bitmap)
      → Runs env v (mntpath ∷ []) mntpath (get_done env fd bitmap mntpath)
  unfolding main main_command run_command run_option get_bitmap parse_args
  get_run bitmap answered written =
      let t1 : Trace Sys = (print_path mntpath, env.reply (print_path mntpath) v.trace) ∷ v.trace in
      let t2 : Trace Sys = (open_device, pos fd) ∷ t1 in
      ground (arith, opened t1, answered t2, written t2)

-- `trctl <text> <mntpath>` and then `trctl <mntpath'>`, each with the device open: if the text is a
-- bitmap that the program accepts, both arguments name one mounted trfs, and the handler of the
-- device runs to its end for both `ioctl`s and succeeds for the second one, then the handler has
-- made the bitmap the mask of the mount and left it there, both runs exit with 0, and the second one
-- has printed the bitmap.
pub set_then_get :
    (env env' : Env Sys) (v v' : World Sys (Unit {0})) (kenv : Env Call) (w w1 w2 : World Call Trfs)
    (fd fd' : ℕ) (text mntpath mntpath' : List ℕ) (bitmap bitmap' : ℕ) (arg arg' : Ptr) (sb : Ptr)
    (info : SbInfo) (ret : ℤ)
    → ((t : Trace Sys) → env.reply open_device t ≡ pos fd)
    → ((t : Trace Sys) → env'.reply open_device t ≡ pos fd')
    → parse_bitmap text ≡ some bitmap
    → Names kenv arg bitmap sb
    → Names kenv arg' bitmap' sb
    → w.vars.s_fs_info sb ≡ some info
    → IsHandled env kenv (ioctl (pos fd) tr_set_bmap (some bitmap) mntpath) tr_set_bmap arg ret w w1
    → IsHandled env' kenv (ioctl (pos fd') tr_get_bmap none mntpath') tr_get_bmap arg' (pos 0) w1 w2
    → (w2.vars.s_fs_info sb ≡ some (record info { umask = bitmap }))
      × Runs env v (text ∷ mntpath ∷ []) mntpath (set_done fd bitmap mntpath)
      × Runs env' v' (mntpath' ∷ []) mntpath' (get_done env' fd' bitmap mntpath')
set_then_get env env' v v' kenv w w1 w2 fd fd' text mntpath mntpath' bitmap bitmap' arg arg' sb info
      ret opened opened' parsed n n' at h h' =
    let (zero_ret, stored) = set_bitmap_stores kenv w arg bitmap sb n info at h.runs in
    let (kept, copied) =
      get_after_set kenv w w1 w2 arg arg' bitmap bitmap' sb info ret (pos 0) n n' at h.runs
        h'.runs in
    (
      ap (λ s. s.s_fs_info sb) (kept ∙ stored) ∙ rw (==ℤ_self sb) refl,
      set_run env v fd mntpath opened text bitmap parsed (λ t. h.answered t ∙ ap as_ioctl zero_ret),
      get_run env' v' fd' mntpath' opened' bitmap h'.answered
          (λ t. h'.written bitmap t copied refl),
    )
