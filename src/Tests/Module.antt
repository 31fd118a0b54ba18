-- ===== src/Tests/Module.antt =====
-- Runs of the trace module and of its device.
use trace_file_system.Prelude.{◌+◌, ◌≡◌, refl, pos, none, some, [], ◌∷◌, arith}
use trace_file_system.Exec.{Trace, World}
use trace_file_system.Record.{TrRecord, tr_fcreat}
use trace_file_system.Kernel.{
  Ptr, Trfs, Call, update, mutex_lock, mutex_unlock, copy_to_user, copy_from_user, getname_kernel,
  putname, filp_open, filp_close, get_free_page, dentry_path_raw,
}
use trace_file_system.Dump.{no_aux, log_operation}
use trace_file_system.Dump.Fill.{fcreat}
use trace_file_system.Dump.Log.{LogIs, log_file}
use trace_file_system.Dump.Switch.{IsHealthy}
use trace_file_system.Dump.Operation.{Logged, log_operation_on}
use trace_file_system.Dump.Pages.{pages_taken, pages_freed, log_operation-leaks}
use trace_file_system.Ioctl.{tr_ioctl, tr_get_bmap, tr_set_bmap}
use trace_file_system.Ioctl.Bitmap.{Names, Answered, tr_ioctl_returns}
use trace_file_system.Ioctl.Leaks.{
  names_taken, names_given, files_taken, files_given, tr_ioctl_balanced,
}
use trace_file_system.Tests.{kernel, mount, mounted}

mounted-LogIs : LogIs (pos 7) (pos 9) tr_fcreat [] mounted
unfolding log_file
mounted-LogIs = record {
  info = mount;
  mounted = refl;
  filep = refl;
  mask = refl;
  f_pos = refl;
  content = refl;
}

kernel-IsHealthy : IsHealthy kernel (pos 7)
kernel-IsHealthy = record {
  full = λ f b c a t. refl;
  trfs = λ t. refl;
  page = λ t. refl;
  path = λ d p t. refl;
  path_min = λ d p t. omega arith;
  path_max = λ d p t. omega arith;
}

abbrev creation_logged :
    Logged kernel
      (log_operation
        (pos 7)
        tr_fcreat
        (pos 20)
        (pos 0)
        (pos 420)
        (pos 0)
        no_aux
        (pos 0)
        kernel
        mounted)
      (pos 7)
      (pos 9)
      tr_fcreat
      []
      fcreat
      (pos 20)
      (pos 0)
      (pos 420)
      (pos 0)
      no_aux
      0
creation_logged =
    log_operation_on kernel (pos 7) (pos 9) tr_fcreat [] kernel-IsHealthy (pos 20) (pos 0) (pos 420)
      (pos 0) fcreat no_aux tt (omega arith) mounted mounted-LogIs refl

log_operation-leaks_example :
    (pages_taken creation_logged.after.trace ≡ 2 + pages_taken [])
    × (pages_freed creation_logged.after.trace ≡ 1 + pages_freed [])
log_operation-leaks_example =
    log_operation-leaks kernel mounted (pos 7) mount tr_fcreat (pos 20) (pos 0) (pos 420) (pos 0)
      no_aux (pos 0) (λ t. refl) refl refl refl creation_logged.runs

-- the record of the creation of /a, the first of a mount
abbrev create_record : TrRecord
create_record = record {
  rec_id = 0;
  rec_flags = 0;
  perm_flags = 420;
  result = pos 0;
  rec_size = pos 34;
  path_len = pos 2;
  type = tr_fcreat;
  aux_len = pos 0;
  pathname = record { block = pos 4096; chars = b'/' ∷ b'a' ∷ [] };
  aux = none;
}

abbrev after_fill : World Call Trfs
after_fill = record {
  trace =
      (dentry_path_raw (pos 20) (pos 4096), pos 4096)
      ∷ (get_free_page, pos 4096)
      ∷ (get_free_page, pos 4096)
      ∷ [];
  vars = record mounted.vars { trecord_id = 0 };
}

-- The argument at 30 names the mount, with the bitmap 5.
pub names : (arg : Ptr) → Names kernel arg 5 (pos 7)
names arg = record {
  copied = λ t. refl;
  bits = λ t. refl;
  name = λ p t. refl;
  file = λ p t. refl;
  super = λ i t. refl;
  trfs = λ t. refl;
}

tr_ioctl_returns_example :
    Answered (tr_ioctl tr_set_bmap (pos 30) kernel mounted) (pos 7) mounted tr_set_bmap 5 mount
tr_ioctl_returns_example =
    tr_ioctl_returns kernel mounted (pos 30) 5 (pos 7) (names (pos 30)) tr_set_bmap mount refl

-- What both commands call up to the mask, newest first.
abbrev reached : Trace Call → Trace Call
reached t =
    (filp_open (pos 4096) 0 0, pos 4096)
    ∷ (getname_kernel (pos 4096), pos 4096)
    ∷ (copy_from_user (pos 30), pos 0)
    ∷ t

-- and from the mask on
abbrev released : Trace Call → Trace Call
released t =
    (filp_close (pos 4096), pos 4096)
    ∷ (putname (pos 4096), pos 4096)
    ∷ (mutex_unlock (pos 7), pos 4096)
    ∷ (mutex_lock (pos 7), pos 4096)
    ∷ t

abbrev pub after_set : World Call Trfs
after_set = record {
  trace = released (reached []);
  vars = record mounted.vars {
    s_fs_info = update mounted.vars.s_fs_info (pos 7) (some (record mount { umask = 5 }));
  };
}

abbrev pub after_get : World Call Trfs
after_get = record after_set {
  trace = (copy_to_user (pos 30) 5, pos 0) ∷ released (reached after_set.trace);
}

pub set_runs : tr_ioctl tr_set_bmap (pos 30) kernel mounted ≡ some (pos 0, after_set)
unfolding tr_ioctl
set_runs = refl

pub get_runs : tr_ioctl tr_get_bmap (pos 30) kernel after_set ≡ some (pos 0, after_get)
unfolding tr_ioctl
get_runs = refl

tr_ioctl_balanced_example :
    (names_taken after_set.trace + names_given [] ≡ names_taken [] + names_given after_set.trace)
    × (files_taken after_set.trace + files_given [] ≡ files_taken [] + files_given after_set.trace)
tr_ioctl_balanced_example =
    tr_ioctl_balanced kernel mounted tr_set_bmap (pos 30) (λ sb t. refl) set_runs
