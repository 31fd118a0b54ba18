-- ===== src/Inode/Attr/Overflow.antt =====
-- The NUL behind a link's target.
use trace_file_system.Prelude.{
  ℤ, pos, ◌==ℤ◌, false, ◌≡◌, Option, none, some, List, [], ◌∷◌, arith, Option-cases, inl, inr,
}
use trace_file_system.Exec.{Trace, Env, World}
use trace_file_system.Kernel.{
  Ptr, null, Trfs, Call, kmalloc, i_op, has, invoke, readlink, set_nul, set_fs_kernel, d_inode,
}
use trace_file_system.Kernel.Path.{trfs_get_lower_path, trfs_put_lower_path}
use trace_file_system.Inode.Traced.{called}
use trace_file_system.Inode.Attr.{lower_readlink, link_buffer, trfs_readlink, trfs_get_link}

-- Where the last NUL was put.
abbrev pub last_nul : Trace Call → Option ℤ
last_nul [] = none
last_nul ((set_nul p n, r) ∷ t) = some n
last_nul (_ ∷ t) = last_nul t

-- The lower links are long: every call of their `readlink` fills the buffer of 4096 bytes.
pub record IsLong (env : Env Call) : Type 0 where
  pub table : (p : Ptr) (t : Trace Call) → (env.reply (i_op p) t ==ℤ null) ≡ false
  pub method : (p : Ptr) (t : Trace Call) → (env.reply (has readlink p) t ==ℤ pos 0) ≡ false
  pub inodes : (p : Ptr) (t : Trace Call) → (env.reply (d_inode p) t ==ℤ null) ≡ false
  pub length :
      (p : Ptr) (args : List ℤ) (t : Trace Call) → env.reply (invoke readlink p args) t ≡ pos 4096

trfs_readlink_long :
    (env : Env Call) (w : World Call Trfs) (d buf : Ptr) {ret : ℤ} {w' : World Call Trfs}
    → IsLong env
    → trfs_readlink d buf (pos 4096) env w ≡ some (ret, w')
    → ret ≡ pos 4096
unfolding trfs_readlink lower_readlink trfs_get_lower_path trfs_put_lower_path
trfs_readlink_long env w d buf long h =
    grind (arith, long.table, long.method, long.inodes, long.length)

-- If the target of a link fills the buffer of 4096 bytes, the handler of `get_link` that comes to an
-- end, on a dentry and with memory for the buffer, has put a NUL at the index 4096, which is behind
-- the buffer.
pub trfs_get_link_overflows :
    (env : Env Call) (w : World Call Trfs) (d inode delayed : Ptr) {ret : Ptr}
    {w' : World Call Trfs}
    → IsLong env
    → (d ==ℤ null) ≡ false
    → (env.reply (kmalloc 4096) w.trace ==ℤ null) ≡ false
    → trfs_get_link d inode delayed env w ≡ some (ret, w')
    → last_nul w'.trace ≡ some (pos 4096)
unfolding trfs_get_link link_buffer
trfs_get_link_overflows env w d inode delayed long there room h =
    let buf = env.reply (kmalloc 4096) w.trace in
    let w1 = called env set_fs_kernel (called env (kmalloc 4096) w) in
    elim (Option-cases (trfs_readlink d buf (pos 4096) env w1)) [
      | inl e ↦ absurd (ground arith)
      | inr ((err, w2), e) ↦ ground (arith, trfs_readlink_long env w1 d buf long e)
    ]
