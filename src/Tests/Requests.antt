-- ===== src/Tests/Requests.antt =====
-- Requests on a mount, and what they leave in the log.
use trace_file_system.Prelude.{ℕ, ℤ, List, pos, negsuc, refl, true, some, none, [], ◌∷◌, arith, ◌≡◌}
use trace_file_system.Exec.{World, Env}
use trace_file_system.Record.{Chars}
use trace_file_system.Kernel.{Ptr, Trfs, Call, inode_permission, vfs_symlink}
use trace_file_system.Dump.{memory}
use trace_file_system.Dump.Fill.{symlink}
use trace_file_system.Dump.Log.{LogIs, log_file}
use trace_file_system.Mount.{all_bits}
use trace_file_system.Inode.Attr.{trfs_permission}
use trace_file_system.Inode.Nodes.{trfs_symlink}
use trace_file_system.Inode.Nodes.Symlink.{trfs_symlink-Traced, trfs_symlink-oops}
use trace_file_system.Inode.Traced.{MakesAt, Traced, LogIs-SameLog, called}
use trace_file_system.Lookup.Interpose.{SameLog}
use trace_file_system.Requests.{Request, Other, serve_other}
use trace_file_system.Requests.Quiet.{serve_other-SameLog}
use trace_file_system.Requests.Ready.{Answers}
use trace_file_system.Requests.Serve.{Served, serve-Served}
use trace_file_system.Requests.History.{History, here, logged, other, Told, History-Told}
use trace_file_system.Requests.Image.{TextPaths}
use trace_file_system.Tests.{kernel}
use trace_file_system.Tests.Handlers.{
  traced, lower_path, traced-LogIs, traced-IsHealthy, dir-IsMounted, makes_creations,
  makes_directories,
}

abbrev pub target : Chars
target = record { block = pos 40; chars = b't' ∷ [] }

makes_links : (p d : Ptr) (s : List ℕ) → MakesAt kernel (vfs_symlink p d s) d
makes_links p d s = record { int = λ t. omega arith; inode = λ t e. refl }

trfs_symlink-Traced_example :
    Traced kernel
      (trfs_symlink (pos 5) (pos 20) target kernel traced)
      (pos 7)
      (pos 9)
      all_bits
      []
      symlink
      (pos 20)
      (pos 0)
      (pos 0)
      (memory target)
      0
trfs_symlink-Traced_example =
    trfs_symlink-Traced kernel (pos 7) (pos 9) all_bits [] traced-IsHealthy (pos 5) dir-IsMounted
      makes_links (pos 20) target (omega arith) (omega arith) lower_path traced
      (λ err w1 e. record { inode = refl; super = refl }) traced-LogIs refl refl

pub kernel-Answers : Answers kernel
kernel-Answers = record {
  creates = makes_creations;
  links = λ a b c t. omega arith;
  unlinks = λ a b t. omega arith;
  symlinks = makes_links;
  makes = makes_directories;
  removes = λ a b t. omega arith;
  parents = λ d t t'. refl;
  renames = λ a b c d t. omega arith;
}

pub kernel-TextPaths : TextPaths kernel
kernel-TextPaths d p t = (refl, (refl, tt))

-- A question for permission, and then the creation of a file.
abbrev pub permitted : World Call Trfs
permitted = called kernel (inode_permission (pos 13) (pos 2)) traced

pub permission_runs :
    serve_other (Other.permission (pos 5) (pos 2)) kernel traced ≡ some (pos 4096, permitted)
unfolding serve_other trfs_permission
permission_runs = refl

serve_other-SameLog_example : SameLog (pos 9) traced permitted
serve_other-SameLog_example =
    serve_other-SameLog kernel (pos 9) traced (Other.permission (pos 5) (pos 2)) permission_runs

abbrev pub creation : Request
creation = Request.create (pos 5) (pos 20) (pos 420) true

pub permitted-LogIs : LogIs (pos 7) (pos 9) all_bits [] permitted
unfolding log_file
permitted-LogIs =
    LogIs-SameLog (pos 7) (pos 9) all_bits [] traced permitted traced-LogIs (refl, refl, refl)

serve-Served_example : Served kernel (pos 7) (pos 9) all_bits [] permitted creation
serve-Served_example =
    serve-Served kernel (pos 7) (pos 9) all_bits [] traced-IsHealthy kernel-Answers permitted
      creation permitted-LogIs (dir-IsMounted, record { path = lower_path; at = refl }) tt

abbrev pub created : Served kernel (pos 7) (pos 9) all_bits [] permitted creation
created =
    serve-Served kernel (pos 7) (pos 9) all_bits [] traced-IsHealthy kernel-Answers permitted
      creation permitted-LogIs (dir-IsMounted, record { path = lower_path; at = refl }) tt

two_requests : History kernel (pos 7) traced ((creation, created.err) ∷ []) created.after
two_requests = other (Other.permission (pos 5) (pos 2)) permission_runs (
    logged creation (dir-IsMounted, record { path = lower_path; at = refl }) tt created.runs
      (here created.after))

History-Told_example :
    Told kernel (pos 7) (pos 9) all_bits [] 4294967295 ((creation, created.err) ∷ []) created.after
History-Told_example =
    History-Told kernel (pos 7) (pos 9) all_bits traced-IsHealthy kernel-Answers [] traced-LogIs
      two_requests

-- A lower file system that makes no links, on dentries that have no inode.
abbrev refusing : Env Call
refusing = record { reply = λ c t. refusal c; bytes = λ c t. [] }
  where
    refusal : Call → ℤ
    refusal (vfs_symlink a b s) = negsuc 27
    refusal _ = pos 0

trfs_symlink-oops_example : trfs_symlink (pos 5) (pos 20) target refusing traced ≡ none
trfs_symlink-oops_example =
    trfs_symlink-oops refusing (pos 5) (pos 20) target traced (λ a b t. refl) (λ t. refl)
