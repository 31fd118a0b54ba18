-- ===== src/Tests/Handlers.antt =====
-- Runs of the traced handlers.
use trace_file_system.Prelude.{ℕ, ℤ, Bool, ◌^◌, ◌-◌, refl, pos, true, some, [], ◌∷◌, arith}
use trace_file_system.Exec.{World}
use trace_file_system.Record.{Chars}
use trace_file_system.Kernel.{Ptr, KPath, FileInfo, Trfs, Call, SbInfo, vfs_create, vfs_mkdir}
use trace_file_system.Dump.{no_aux, memory, dentry}
use trace_file_system.Dump.Fill.{link, fcreat, dcreat, unlink, rename, fwrite}
use trace_file_system.Dump.Log.{LogIs, log_file}
use trace_file_system.Dump.Switch.{IsHealthy}
use trace_file_system.Inode.{trfs_create, trfs_link, trfs_unlink}
use trace_file_system.Inode.Rename.{trfs_rename}
use trace_file_system.Inode.Nodes.{trfs_rmdir, trfs_mkdir}
use trace_file_system.Inode.Nodes.Rmdir.{trfs_rmdir-Traced}
use trace_file_system.Inode.Nodes.Mkdir.{trfs_mkdir-Traced}
use trace_file_system.Inode.Traced.{IsMounted, MakesAt, Traced}
use trace_file_system.Lookup.Interpose.{trfs_interpose-lower}
use trace_file_system.Inode.Create.{trfs_create-Traced}
use trace_file_system.Inode.Link.{KeepsInode, trfs_link-Traced}
use trace_file_system.Inode.Unlink.{trfs_unlink-Traced}
use trace_file_system.Inode.Rename.Run.{trfs_rename-Traced}
use trace_file_system.File.{OpenFile, trfs_write}
use trace_file_system.File.Write.{trfs_write-Traced}
use trace_file_system.Tests.{kernel, mount, mounted}

-- The mount with every bit of its mask set.
abbrev all_bits : ℕ
all_bits = 2 ^ 64 - 1

abbrev pub traced_mount : SbInfo
traced_mount = record mount { umask = all_bits }

abbrev pub lower_file : FileInfo
lower_file = record { lower_file = pos 14; lower_vm_ops = pos 0 }

abbrev pub traced : World Call Trfs
traced = record mounted {
  vars = record mounted.vars {
    s_fs_info = λ sb. some traced_mount;
    private_data = λ f. some lower_file;
  };
}

abbrev pub lower_path : KPath
lower_path = record { dentry = pos 11; mnt = pos 12 }

pub traced-LogIs : LogIs (pos 7) (pos 9) all_bits [] traced
unfolding log_file
traced-LogIs = record {
  info = traced_mount;
  mounted = refl;
  filep = refl;
  mask = refl;
  f_pos = refl;
  content = refl;
}

pub traced-IsHealthy : IsHealthy kernel (pos 7)
traced-IsHealthy = record {
  full = λ f b c a t. refl;
  trfs = λ t. refl;
  page = λ t. refl;
  path = λ d p t. refl;
  path_min = λ d p t. omega arith;
  path_max = λ d p t. omega arith;
}

pub makes_creations : (p d : Ptr) (m : ℤ) (x : Bool) → MakesAt kernel (vfs_create p d m x) d
makes_creations p d m x = record { int = λ t. omega arith; inode = λ t e. refl }

pub makes_directories : (p d : Ptr) (m : ℤ) → MakesAt kernel (vfs_mkdir p d m) d
makes_directories p d m = record { int = λ t. omega arith; inode = λ t e. refl }

pub dir-IsMounted : IsMounted kernel (pos 7) (pos 5)
dir-IsMounted = record { dir_inode = refl; dir_super = λ t. refl }

trfs_create-Traced_example :
    Traced kernel
      (trfs_create (pos 5) (pos 20) (pos 420) true kernel traced)
      (pos 7)
      (pos 9)
      all_bits
      []
      fcreat
      (pos 20)
      (pos 0)
      (pos 420)
      no_aux
      0
trfs_create-Traced_example =
    trfs_create-Traced kernel (pos 7) (pos 9) all_bits [] traced-IsHealthy (pos 5) dir-IsMounted
      makes_creations (pos 20) lower_path (pos 420) true traced traced-LogIs refl refl

trfs_unlink-Traced_example :
    Traced kernel
      (trfs_unlink (pos 5) (pos 20) kernel traced)
      (pos 7)
      (pos 9)
      all_bits
      []
      unlink
      (pos 20)
      (pos 0)
      (pos 0)
      no_aux
      0
trfs_unlink-Traced_example =
    trfs_unlink-Traced kernel (pos 7) (pos 9) all_bits [] traced-IsHealthy (pos 5) dir-IsMounted
      (λ a b t. omega arith) (pos 20) lower_path traced (record { inode = refl; lower = refl })
      traced-LogIs refl refl

trfs_rename-Traced_example :
    Traced kernel
      (trfs_rename (pos 5) (pos 20) (pos 6) (pos 21) kernel traced)
      (pos 7)
      (pos 9)
      all_bits
      []
      rename
      (pos 20)
      (pos 0)
      (pos 0)
      (dentry (pos 21))
      0
trfs_rename-Traced_example =
    trfs_rename-Traced kernel (pos 7) (pos 9) all_bits [] traced-IsHealthy
      (λ a b c d t. omega arith) (pos 5) (pos 20) (pos 6) (pos 21) lower_path lower_path traced
      (λ err w1 e. record { inode = refl; super = refl }) traced-LogIs refl refl refl

abbrev pub open_file : OpenFile
open_file = record { file = pos 30; f_dentry = pos 20; f_flags = pos 1 }

abbrev pub buffer : Chars
buffer = record { block = pos 40; chars = b'h' ∷ b'i' ∷ [] }

trfs_write-Traced_example :
    Traced kernel
      (trfs_write open_file (some buffer) (pos 2) (pos 0) kernel traced)
      (pos 7)
      (pos 9)
      all_bits
      []
      fwrite
      (pos 20)
      (pos 1)
      (pos 0)
      (memory buffer)
      0
trfs_write-Traced_example =
    trfs_write-Traced kernel (pos 7) (pos 9) all_bits [] traced-IsHealthy open_file lower_file
      buffer (pos 0) traced (record { inode = refl; super = refl }) (omega arith) (omega arith)
      traced-LogIs refl refl

trfs_rmdir-Traced_example :
    Traced kernel
      (trfs_rmdir (pos 5) (pos 20) kernel traced)
      (pos 7)
      (pos 9)
      all_bits
      []
      unlink
      (pos 20)
      (pos 0)
      (pos 0)
      no_aux
      0
trfs_rmdir-Traced_example =
    trfs_rmdir-Traced kernel (pos 7) (pos 9) all_bits [] traced-IsHealthy (pos 5) dir-IsMounted
      (λ a b t. omega arith) (λ d t t'. refl) (pos 20) lower_path traced traced-LogIs refl refl

trfs_mkdir-Traced_example :
    Traced kernel
      (trfs_mkdir (pos 5) (pos 20) (pos 493) kernel traced)
      (pos 7)
      (pos 9)
      all_bits
      []
      dcreat
      (pos 20)
      (pos 0)
      (pos 493)
      no_aux
      0
trfs_mkdir-Traced_example =
    trfs_mkdir-Traced kernel (pos 7) (pos 9) all_bits [] traced-IsHealthy (pos 5) dir-IsMounted
      makes_directories (pos 20) lower_path (pos 493) traced refl traced-LogIs refl refl

keeps_inode : KeepsInode kernel (pos 7) (pos 5) (pos 20) (pos 21) lower_path lower_path traced
keeps_inode = record {
  low = λ err w1 e. record {
    inode = refl;
    lower = trfs_interpose-lower kernel (pos 4096) _ (pos 21) (pos 7) lower_path refl refl e;
  };
  super = λ err w1 e. record { inode = refl; super = refl };
}

trfs_link-Traced_example :
    Traced kernel
      (trfs_link (pos 20) (pos 5) (pos 21) kernel traced)
      (pos 7)
      (pos 9)
      all_bits
      []
      link
      (pos 20)
      (pos 0)
      (pos 0)
      (dentry (pos 21))
      0
trfs_link-Traced_example =
    trfs_link-Traced kernel (pos 7) (pos 9) all_bits [] traced-IsHealthy (pos 5) dir-IsMounted
      (λ a b c t. omega arith) (pos 20) (pos 21) lower_path lower_path traced keeps_inode
      traced-LogIs refl refl refl
