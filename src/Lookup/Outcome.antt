-- ===== src/Lookup/Outcome.antt =====
-- How a lookup ends, as it leaves the private data of the dentry.
use trace_file_system.Prelude.{List, ◌⊎◌, ℕ, ℤ, pos, ◌≡◌, ◌==ℤ◌, false, some, to_int}
use trace_file_system.Exec.{Env, Trace}
use trace_file_system.Kernel.{
  d_lookup, d_alloc, Ptr, null, KPath, enoent, Trfs, Call, vfs_path_lookup, found_dentry, found_mnt,
  d_name, mntget,
}
use trace_file_system.Kernel.Path.{no_path}
use trace_file_system.Lookup.Stacked.{IsStacked}

-- What the lower file system says of the name of `d` in the directory `parent` at a time.
abbrev pub looked_up : Env Call → Ptr → KPath → Trace Call → Trace Call → ℤ
looked_up env d parent named t =
    to_int (env.reply (vfs_path_lookup parent.dentry parent.mnt (env.bytes (d_name d) named)) t)

-- The name is there: `d` has the path that was found, and an inode that stands on that of its lower
-- dentry.
pub record IsFound (env : Env Call) (d : Ptr) (parent : KPath) (ret : Ptr) (v : Trfs) : Type 0 where
  pub named : Trace Call
  pub t : Trace Call
  pub looked : looked_up env d parent named t ≡ pos 0
  pub path : KPath
  pub found : Trace Call
  pub is : path ≡ record { dentry = env.reply found_dentry found; mnt = env.reply found_mnt found }
  pub at : v.d_fsdata d ≡ some path
  pub stacked : IsStacked env d path ret v

-- `d` has the lower dentry that the kernel has, or makes, below the parent for its name, on the
-- parent's mount, and the value is NULL.
pub record IsNegative (env : Env Call) (d : Ptr) (parent : KPath) (ret : Ptr) (v : Trfs)
    : Type 0 where
  pub none : ret ≡ null
  pub lower : Ptr
  pub there : (lower ==ℤ null) ≡ false
  pub name : List ℕ
  pub named : Trace Call
  pub name_of_d : name ≡ env.bytes (d_name d) named
  pub t : Trace Call
  pub is_lower :
      (lower ≡ env.reply (d_lookup parent.dentry name) t)
      ⊎ (lower ≡ env.reply (d_alloc parent.dentry name) t)
  pub got : Trace Call
  pub at : v.d_fsdata d ≡ some (record { dentry = lower; mnt = env.reply (mntget parent.mnt) got })

-- The name is not there.
pub record IsMissing (env : Env Call) (d : Ptr) (parent : KPath) (ret : Ptr) (v : Trfs)
    : Type 0 where
  pub named : Trace Call
  pub t : Trace Call
  pub looked : looked_up env d parent named t ≡ enoent
  pub is_negative : IsNegative env d parent ret v

-- The lookup has failed: the value is not NULL, and `d` has private data without a path.
pub record HasFailed (d ret : Ptr) (v : Trfs) : Type 0 where
  pub value : (ret ==ℤ null) ≡ false
  pub at : v.d_fsdata d ≡ some no_path

-- How a lookup ends.
pub data Outcome (env : Env Call) (d : Ptr) (parent : KPath) (ret : Ptr) (v : Trfs) : Type 0 where
  found : IsFound env d parent ret v → Outcome env d parent ret v
  missing : IsMissing env d parent ret v → Outcome env d parent ret v
  failed : HasFailed d ret v → Outcome env d parent ret v
