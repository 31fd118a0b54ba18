-- ===== src/Tests/Sessions.antt =====
-- A mount, the lookup of a name, the creation of the file, its opening, and a write to it.
use trace_file_system.Prelude.{true, pos, none, some, List, [], ◌∷◌}
use trace_file_system.Exec.{World}
use trace_file_system.Kernel.{null, Trfs, Call}
use trace_file_system.Mount.{trfs_read_super}
use trace_file_system.Requests.{Request, Other, serve, serve_other}
use trace_file_system.Requests.Ready.{Ready}
use trace_file_system.Requests.Progress.{Step, ask, pass}
use trace_file_system.Tests.{kernel, mounted}
use trace_file_system.Tests.Handlers.{open_file, buffer}
use trace_file_system.Tests.Mounts.{state_of, lower_name, log_option}

-- Nothing has private data yet.
abbrev unused : World Call Trfs
unused = record mounted {
  vars = record mounted.vars {
    s_fs_info = λ sb. none;
    d_fsdata = λ d. none;
    lower_inode = λ i. null;
    private_data = λ f. none;
  };
}

abbrev based : World Call Trfs
based = state_of (trfs_read_super (pos 7) (some lower_name) (some log_option) kernel unused)

abbrev lookup : Other
lookup = Other.lookup (pos 4096) (pos 20) (pos 0)

abbrev looked : World Call Trfs
looked = state_of (serve_other lookup kernel based)

abbrev creation : Request
creation = Request.create (pos 4096) (pos 20) (pos 420) true

abbrev created : World Call Trfs
created = state_of (serve creation kernel looked)

abbrev opening : Other
opening = Other.open_file (pos 4096) open_file

abbrev opened : World Call Trfs
opened = state_of (serve_other opening kernel created)

abbrev writing : Request
writing = Request.write open_file buffer (pos 0)

abbrev session : List Step
session = pass lookup ∷ ask creation ∷ pass opening ∷ ask writing ∷ []
