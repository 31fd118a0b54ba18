-- ===== src/Requests/Ready.antt =====
-- The requests that are logged: what the kernel sees to before it makes one, and that its handler
-- then comes to an end in the code that logs.
use trace_file_system.Prelude.{ℤ, pos, length, ◌≡◌, ◌==ℤ◌, false, some}
use trace_file_system.Exec.{Env, World}
use trace_file_system.Record.{Chars}
use trace_file_system.Kernel.{Ptr, null, KPath, SbInfo, FileInfo, Trfs, Call}
use trace_file_system.Dump.Switch.{Suits}
use trace_file_system.Inode.Traced.{IsMounted, InSuperAt, Handled}
use trace_file_system.Inode.Create.{Creates, trfs_create-Handled}
use trace_file_system.Inode.Link.{LinksInt, KeepsInode, trfs_link-Handled}
use trace_file_system.Inode.Unlink.{UnlinksInt, StaysOn, trfs_unlink-Handled}
use trace_file_system.Inode.Nodes.Symlink.{Symlinks, Appears, trfs_symlink-Handled}
use trace_file_system.Inode.Nodes.Mkdir.{Makes, trfs_mkdir-Handled}
use trace_file_system.Inode.Nodes.Rmdir.{RemovesInt, ParentsHaveInodes, trfs_rmdir-Handled}
use trace_file_system.Inode.Rename.Run.{RenamesInt, Stays, trfs_rename-Handled}
use trace_file_system.File.{OpenFile}
use trace_file_system.File.Write.{written, trfs_write-Handled}
use trace_file_system.Requests.{Request, entry, serve}

-- The dentry has private data.
pub record HasPath (w : World Call Trfs) (d : Ptr) : Type 0 where
  pub path : KPath
  pub at : w.vars.d_fsdata d ≡ some path

-- The file has private data, and behind the write of the lower file its dentry has an inode of the
-- mount.
pub record IsWritable (env : Env Call) (sb : Ptr) (o : OpenFile) (buf : Chars) (ppos : ℤ)
    (w : World Call Trfs) : Type 0 where
  pub info : FileInfo
  pub at : w.vars.private_data o.file ≡ some info
  pub super : InSuperAt env sb o.f_dentry (written env info o buf (pos (length buf.chars)) ppos w)

-- Both dentries have private data, and the old one keeps its inode of the mount.
pub record IsLinkable (env : Env Call) (sb dir old_d new_d : Ptr) (w : World Call Trfs)
    : Type 0 where
  pub old_path : KPath
  pub new_path : KPath
  pub old_at : w.vars.d_fsdata old_d ≡ some old_path
  pub new_at : w.vars.d_fsdata new_d ≡ some new_path
  pub stays : KeepsInode env sb dir old_d new_d old_path new_path w

-- The dentry has private data, and keeps its inode while the lower name is removed.
pub record IsRemovable (env : Env Call) (dir d : Ptr) (w : World Call Trfs) : Type 0 where
  pub path : KPath
  pub at : w.vars.d_fsdata d ≡ some path
  pub stays : StaysOn env dir d path w

-- Both dentries have private data, and behind the work of the lower file system the old one has an
-- inode of the mount.
pub record IsMovable (env : Env Call) (sb old_dir old_d new_dir new_d : Ptr) (w : World Call Trfs)
    : Type 0 where
  pub old_path : KPath
  pub new_path : KPath
  pub old_at : w.vars.d_fsdata old_d ≡ some old_path
  pub new_at : w.vars.d_fsdata new_d ≡ some new_path
  pub stays : Stays env sb old_dir old_d new_dir new_d old_path new_path w

-- The dentry has private data, and an inode behind the work of the lower file system.
pub record IsLinked (env : Env Call) (sb dir d : Ptr) (symname : Chars) (w : World Call Trfs)
    : Type 0 where
  pub path : KPath
  pub at : w.vars.d_fsdata d ≡ some path
  pub made : Appears env sb dir d symname path w

-- The calls of the lower file system return an `int`, and those that make an object leave an inode
-- where that is 0; a parent has an inode.
pub record Answers (env : Env Call) : Type 0 where
  pub creates : Creates env
  pub links : LinksInt env
  pub unlinks : UnlinksInt env
  pub symlinks : Symlinks env
  pub makes : Makes env
  pub removes : RemovesInt env
  pub parents : ParentsHaveInodes env
  pub renames : RenamesInt env

-- The objects of a request are of the mount `sb`, and have private data and inodes where its handler
-- reads them.
abbrev pub Ready : Env Call → Ptr → World Call Trfs → Request → Type 0
Ready env sb w (Request.create dir d mode excl) = IsMounted env sb dir × HasPath w d
Ready env sb w (Request.link_to old_d dir new_d) =
    IsMounted env sb dir × IsLinkable env sb dir old_d new_d w
Ready env sb w (Request.remove dir d) = IsMounted env sb dir × IsRemovable env dir d w
Ready env sb w (Request.symlink_to dir d symname) =
    IsMounted env sb dir × IsLinked env sb dir d symname w
Ready env sb w (Request.mkdir dir d mode) =
    IsMounted env sb dir × ((w.vars.lower_inode dir ==ℤ null) ≡ false) × HasPath w d
Ready env sb w (Request.rmdir dir d) = IsMounted env sb dir × HasPath w d
Ready env sb w (Request.rename_to old_dir old_d new_dir new_d) =
    IsMovable env sb old_dir old_d new_dir new_d w
Ready env sb w (Request.write o buf ppos) = IsWritable env sb o buf ppos w

-- The data of a write and the target of a symbolic link are not empty and fit a record.
abbrev pub Fits : Request → Type 0
Fits req = Suits (entry req).op (entry req).aux

module _ (env : Env Call) (sb f : Ptr) (answers : Answers env) (w : World Call Trfs) where
  abbrev HandledAs : Request → Type 0
  HandledAs req =
      Handled env (serve req env w) sb f (entry req).op (entry req).d (entry req).flags
        (entry req).perm_flags (entry req).aux w

  pub serve-Handled :
      (info : SbInfo)
      → w.vars.s_fs_info sb ≡ some info
      → (req : Request) → Ready env sb w req
      → HandledAs req
  unfolding serve
  serve-Handled info at (Request.create dir d mode excl) (m, p) =
      trfs_create-Handled env sb f dir m answers.creates d p.path mode excl w info at p.at
  serve-Handled info at (Request.link_to old_d dir new_d) (m, l) =
      trfs_link-Handled env sb f dir m answers.links old_d new_d l.old_path l.new_path w info at
        l.stays l.old_at l.new_at
  serve-Handled info at (Request.remove dir d) (m, r) =
      trfs_unlink-Handled env sb f dir m answers.unlinks d r.path w r.stays r.at
  serve-Handled info at (Request.symlink_to dir d symname) (m, s) =
      trfs_symlink-Handled env sb f dir m answers.symlinks d symname s.path w info s.made at s.at
  serve-Handled info at (Request.mkdir dir d mode) (m, low, p) =
      trfs_mkdir-Handled env sb f dir m answers.makes d p.path mode w info at low p.at
  serve-Handled info at (Request.rmdir dir d) (m, p) =
      trfs_rmdir-Handled env sb f dir m answers.removes answers.parents d p.path w p.at
  serve-Handled info at (Request.rename_to old_dir old_d new_dir new_d) m =
      trfs_rename-Handled env sb f answers.renames old_dir old_d new_dir new_d m.old_path m.new_path
        w m.stays m.old_at m.new_at
  serve-Handled info at (Request.write o buf ppos) p =
      trfs_write-Handled env sb f o p.info buf ppos w p.super p.at
