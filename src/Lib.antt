-- ===== src/Lib.antt =====
-- A verification library for trfs, a stackable file system that traces the operations on it in a
-- log, and for the programs around it.
--
-- The parts, and the files that model them:
--   trfs/tr_types.h    Record: the operation types and `struct tr_record`; Record.Layout: its bytes
--                      in the log (`image`) and the fields read back as treplay does
--   trfs/trdump.c      Dump: `fill_record` and `append_record`, and the code at the label `out` of
--                      the handlers that calls them (`log_operation`); Dump.Pages: the pages that
--                      it takes and gives back; Dump.Overflow: a record whose size does not fit its
--                      field
--   trfs/trfs.h        Kernel: the data that trfs keeps, and the calls that it makes of the kernel;
--                      Kernel.Path: the lower path of a dentry and the lock of a parent
--   trfs/inode.c       Inode: create, link and unlink; Inode.Nodes: symlink, mkdir, rmdir and
--                      mknod; Inode.Rename: rename; Inode.Traced: how a handler stands
--                      to the log, applied in Inode.Create, Inode.Link, Inode.Unlink,
--                      Inode.Rename.Run and Inode.Nodes.{Mkdir,Rmdir,Symlink};
--                      Inode.Attr: links and attributes; Inode.Attr.Overflow: the longest links;
--                      Inode.Xattr: extended attributes
--   trfs/file.c        File: `trfs_write`; File.Write: what it adds to the log; File.Open: open,
--                      release and mmap; File.Lifecycle: a file opened and released; File.Empty: a
--                      write of no bytes; File.Overflow: a write too long for its
--                      record; File.Ops: the operations that are passed on
--   trfs/lookup.c      Lookup: `trfs_iget` and `trfs_interpose`; Lookup.Private: the private data
--                      of dentries; Lookup.Find: lookup; Lookup.Stacked and Lookup.Found: what an
--                      interposition and a lookup leave; Lookup.Interpose: how the first two stand
--                      to the log
--   trfs/super.c       Super: unmount, remount and the life of inodes; Super.Cache: their cache;
--                      Super.Unmount: what an unmount leaves
--   trfs/main.c        Mount: the opening of the log, the mount, and the module's start and end;
--                      Mount.Fresh: where a mount starts; Mount.Oops: its error paths
--   trfs/dentry.c      Dentry: revalidation and release
--   trfs/mmap.c        Mmap: the fault handlers
--   (their tables)     Requests: the handlers as the kernel calls them; Requests.Serve: what one
--                      request adds to the log; Requests.History: what any sequence of them does;
--                      Requests.Image and Requests.Session: up to the replay, and from the mount;
--                      Requests.Ready: what a request needs of its objects; Requests.Progress and
--                      Requests.Completed: a sequence of requests that each have it in their turn;
--                      Requests.Program: from the mount to the exit of treplay;
--                      File.Quiet, Inode.Quiet and Lookup.Quiet: the handlers that log nothing;
--                      Balance: the locks and references that handlers take and give back, and the
--                      private data that they keep
--   hw2/treplay.c      Replay: Status is `replayed_status`, Switch the `switch` of the main loop,
--                      Chunk the loop over a chunk of 16 KB, Main the rest of `main`;
--                      RoundTrip, Records and Whole: a record, a chunk and a log read back;
--                      Program: from `stat` to `exit`
--   hw2/trctl.c        Ctl: the command line; Ctl.Hex: `isvalidhex`; Ctl.Main: `main` as a process;
--                      Ctl.Device: two runs of it against the handler of the device
--   hw2/tr_ioctl.c     Ioctl: the handler of the device; Ioctl.Device: the module's start and
--                      end; Ioctl.Lifecycle: what they make and remove
--
-- The handlers of inode.c and file.c call the lower file system, then fill in a record under the
-- mount's lock and append it to the log file. treplay reads the log and makes the calls again, and
-- trctl sets through the device which operations a mount records.
--
-- Exec is what all parts are written in: a run takes an environment that answers every call from
-- the calls before it, and a trace of them with the variables of the program. A kernel oops, a
-- `BUG_ON` and undefined behaviour end a run with no result. The kernel and the system calls are
-- that environment, and what a theorem needs of them is a hypothesis on it. What another thread
-- does to the mount shows in the environment's answers only, so the variables of trfs are those of
-- one thread.
--
-- Numbers are those of x86-64: `short` and `int` wrap around as in `to_short` and `to_int`. A loop
-- over a chunk has fuel for as many records as the chunk has bytes, which is enough since a record
-- that was written has 32 bytes at least; the loop over the chunks has the fuel of the caller.
--
-- Not modelled: the tables of operations, which only name their functions; what treplay
-- prints besides the reports on records, and the freeing of its buffers at its end; an `int` size of
-- 2 GB that its reads add up to; reads through a NULL that only another part of the kernel could have
-- put in a dentry or a lower inode (the kernel's calls are given it as it is); and the build files.
mod Prelude
pub mod Exec
pub mod Record
pub mod Kernel
pub mod Dump
pub mod Replay
pub mod Ctl
pub mod Lookup
pub mod Super
pub mod Mount
pub mod Dentry
pub mod Mmap
pub mod Inode
pub mod File
pub mod Ioctl
pub mod Balance
pub mod Requests
mod Tests
