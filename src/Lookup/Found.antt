-- ===== src/Lookup/Found.antt =====
-- What a lookup leaves behind a dentry.
use trace_file_system.Prelude.{
  ℤ, pos, ◌≡◌, refl, ap, ◌∙◌, ◌==ℤ◌, ==ℤ_self, true, false, some, to_int, arith, if◌then◌else◌,
  Option-cases, Bool-cases, inl, inr, ◌⊎◌,
}
use trace_file_system.Exec.{Env, World, Trace}
use trace_file_system.Kernel.{
  Ptr, null, is_err, KPath, enoent, Trfs, Call, update, vfs_path_lookup, found_dentry, found_mnt,
  d_name, d_sb, is_root, d_lookup, d_alloc, d_add, dget_parent, spin_lock, spin_unlock, path_get,
  set_d_op, alloc, dentry_info, enomem,
}
use trace_file_system.Kernel.Path.{
  no_path, trfs_set_lower_path, trfs_put_reset_lower_path, trfs_get_lower_path, trfs_put_lower_path,
}
use trace_file_system.Inode.Traced.{called}
use trace_file_system.Lookup.{interpose_dentry}
use trace_file_system.Lookup.Private.{new_dentry_private_data}
use trace_file_system.Lookup.Stacked.{TestsInodes, IsStacked, interpose_dentry-IsStacked}
use trace_file_system.Lookup.Outcome.{
  looked_up, IsNegative, HasFailed, Outcome, found, missing, failed,
}
use trace_file_system.Lookup.Find.{
  err_or, positive, setup_lower, negative, lookup_name, copy_found, find, trfs_lookup,
}

module _ (env : Env Call) (d : Ptr) where
  err_or-value : (p : Ptr) → is_err p ≡ true → (err_or (to_int p) p ==ℤ null) ≡ false
  err_or-value p h = elim (Bool-cases (to_int p ==ℤ pos 0)) [
    | inl e ↦ rw e (ground arith)
    | inr e ↦ rw e e
  ]

  -- the state in which the path of `d` is set
  abbrev placed : World Call Trfs → KPath → World Call Trfs
  placed w path =
      let w1 = called env (spin_lock d) w in
      called env (spin_unlock d)
        (record w1 { vars = record w.vars { d_fsdata = update w.vars.d_fsdata d (some path) } })

  positive_lem :
      (w : World Call Trfs) (old path : KPath) {ret : Ptr} {w' : World Call Trfs}
      → TestsInodes env w.vars.lower_inode
      → w.vars.d_fsdata d ≡ some old
      → positive d path env w ≡ some (ret, w')
      → ((w'.vars.d_fsdata d ≡ some path) × IsStacked env d path ret w'.vars)
        ⊎ HasFailed d ret w'.vars
  unfolding positive trfs_set_lower_path trfs_put_reset_lower_path
  positive_lem w old path {ret} {w'} tests at h =
      let w1 = placed w path in
      let sb = env.reply (d_sb d) w1.trace in
      elim (Option-cases (interpose_dentry d sb path env w1)) [
        | inl e ↦ absurd (ground arith)
        | inr ((p, w2), e) ↦
            let (fs, stacked) = interpose_dentry-IsStacked env w1 d sb path tests e in
            let old_at : w1.vars.d_fsdata d ≡ some path = rw (==ℤ_self d) refl in
            let new_at : w2.vars.d_fsdata d ≡ some path = ap (λ g. g d) fs ∙ old_at in
            elim (Bool-cases (is_err p)) [
              | inl bad ↦ inr (record {
                value = ground (arith, err_or-value p);
                at = ground (arith, ==ℤ_self d);
              })
              | inr fine ↦ elim stacked [
                | inl bad ↦ absurd (ground arith)
                | inr st ↦ inl (
                  ground arith,
                  record {
                    inode = st.inode;
                    t = st.t;
                    t' = st.t';
                    lower = ground (arith, st.lower);
                    answers = ground (arith, st.answers);
                  },
                )
              ]
            ]
      ]

  module _ (parent : KPath) where
    setup_lower_lem :
        (w : World Call Trfs) (flags : ℤ) (lower : Ptr) (old : KPath) {ret : Ptr}
        {w' : World Call Trfs}
        → w.vars.d_fsdata d ≡ some old
        → setup_lower d flags enoent lower parent env w ≡ some (ret, w')
        → (lower ==ℤ null) ≡ false
        → (named t : Trace Call)
        → (lower ≡ env.reply (d_lookup parent.dentry (env.bytes (d_name d) named)) t)
          ⊎ (lower ≡ env.reply (d_alloc parent.dentry (env.bytes (d_name d) named)) t)
        → IsNegative env d parent ret w'.vars
    unfolding setup_lower trfs_set_lower_path
    setup_lower_lem w flags lower old at h n named t is = record {
      none = ground arith;
      lower = lower;
      there = n;
      name = env.bytes (d_name d) named;
      named = named;
      name_of_d = refl;
      t = t;
      is_lower = is;
      got = w.trace;
      at = ground (arith, ==ℤ_self d);
    }

    negative_lem :
        (w : World Call Trfs) (flags : ℤ) (named : Trace Call) {ret : Ptr} {w' : World Call Trfs}
        → w.vars.d_fsdata d ≡ some no_path
        → negative d flags enoent (env.bytes (d_name d) named) parent env w ≡ some (ret, w')
        → HasFailed d ret w'.vars ⊎ IsNegative env d parent ret w'.vars
    unfolding negative
    negative_lem w flags named {ret} {w'} at h =
        let name = env.bytes (d_name d) named in
        let found = env.reply (d_lookup parent.dentry name) w.trace in
        let w1 = called env (d_lookup parent.dentry name) w in
        let made = env.reply (d_alloc parent.dentry name) w1.trace in
        let w2 = called env (d_alloc parent.dentry name) w1 in
        let w3 = called env (d_add made) w2 in
        elim (Bool-cases (found ==ℤ null)) [
          | inr e ↦
              let run : setup_lower d flags enoent found parent env w1 ≡ some (ret, w') =
                ground arith in
              inr (setup_lower_lem w1 flags found no_path at run e named w.trace (inl refl))
          | inl e ↦ elim (Bool-cases (made ==ℤ null)) [
            | inl e1 ↦ inl (record { value = ground arith; at = ground arith })
            | inr e1 ↦
                let run : setup_lower d flags enoent made parent env w3 ≡ some (ret, w') =
                  ground arith in
                inr (setup_lower_lem w3 flags made no_path at run e1 named w1.trace (inr refl))
          ]
        ]

    -- `__trfs_lookup` of a dentry that is not a root and has fresh private data
    lookup_name_lem :
        (w : World Call Trfs) (flags : ℤ) {ret : Ptr} {w' : World Call Trfs}
        → ((t : Trace Call) → env.reply (is_root d) t ≡ pos 0)
        → TestsInodes env w.vars.lower_inode
        → w.vars.d_fsdata d ≡ some no_path
        → lookup_name d flags parent env w ≡ some (ret, w')
        → Outcome env d parent ret w'.vars
    unfolding lookup_name
    lookup_name_lem w flags {ret} {w'} inner tests at h =
        let w1 = called env (set_d_op d) w in
        let name = env.bytes (d_name d) w1.trace in
        let w2 = called env (vfs_path_lookup parent.dentry parent.mnt name) w1 in
        let looked = looked_up env d parent w1.trace w1.trace in
        let path : KPath = record {
          dentry = env.reply found_dentry w2.trace;
          mnt = env.reply found_mnt w2.trace;
        } in
        let inner1 = inner w1.trace in
        elim (Bool-cases (looked ==ℤ pos 0)) [
          | inl e ↦
              let run : positive d path env w2 ≡ some (ret, w') = ground arith in
              elim (positive_lem w2 no_path path tests at run) [
                | inl (new_at, stacked) ↦ found (record {
                  named = w1.trace;
                  t = w1.trace;
                  looked = ground arith;
                  path = path;
                  found = w2.trace;
                  is = refl;
                  at = new_at;
                  stacked = stacked;
                })
                | inr bad ↦ failed bad
              ]
          | inr e ↦ elim (Bool-cases (looked ==ℤ enoent)) [
            | inl e1 ↦
                let run : negative d flags enoent name parent env w2 ≡ some (ret, w') =
                  ground arith in
                elim (negative_lem w2 flags w1.trace at run) [
                  | inl bad ↦ failed bad
                  | inr none ↦ missing (record {
                    named = w1.trace;
                    t = w1.trace;
                    looked = ground arith;
                    is_negative = none;
                  })
                ]
            | inr e1 ↦ failed (record { value = ground arith; at = ground arith })
          ]
        ]

    copy_found_vars :
        (w : World Call Trfs) (p q : Ptr) {u : Unit {0}} {w' : World Call Trfs}
        → copy_found p q env w ≡ some (u, w')
        → w'.vars ≡ w.vars
    unfolding copy_found
    copy_found_vars w p q h = ground arith

    find_lem :
        (w : World Call Trfs) (flags : ℤ) (p : Ptr) {ret : Ptr} {w' : World Call Trfs}
        → ((t : Trace Call) → env.reply (is_root d) t ≡ pos 0)
        → TestsInodes env w.vars.lower_inode
        → find d flags p parent env w ≡ some (ret, w')
        → (ret ≡ enomem) ⊎ Outcome env d parent ret w'.vars
    unfolding find new_dentry_private_data
    find_lem w flags p {ret} {w'} inner tests h =
        let c = alloc (dentry_info d) in
        let w1 = called env c w in
        let w2 : World Call Trfs = record w1 {
          vars = record w.vars { d_fsdata = update w.vars.d_fsdata d (some no_path) };
        } in
        elim (Bool-cases (env.reply c w.trace ==ℤ null)) [
          | inl e ↦ inl (ground arith)
          | inr e ↦ elim (Option-cases (lookup_name d flags parent env w2)) [
            | inl e1 ↦ absurd (ground arith)
            | inr ((x, w3), e1) ↦
                let outcome = lookup_name_lem w2 flags inner tests (rw (==ℤ_self d) refl) e1 in
                let q = if x ==ℤ null then d else x in
                let (same, vars) : (ret ≡ x) × (w'.vars ≡ w3.vars) =
                  elim (Option-cases (copy_found q p env w3)) [
                    | inl e2 ↦ ground arith
                    | inr ((u, w4), e2) ↦ ground (arith, copy_found_vars w3 q p e2)
                  ] in
                inr (rw (same, vars) outcome)
          ]
        ]

-- A lookup that comes to an end, of a dentry that is not a root, below a parent whose lower path is
-- known, where the inode cache tells inodes by the module's test: it has no memory for the private
-- data; or the lower name is there, and the dentry has the lower path that was found and an inode
-- that stands on the inode of that; or the lower name is not there, and the dentry has the lower
-- dentry that the kernel has or makes below the parent for its name, on the parent's mount, and the
-- value is NULL; or the value is not NULL and the dentry has no lower path.
pub trfs_lookup-Outcome :
    (env : Env Call) (w : World Call Trfs) (dir d : Ptr) (flags : ℤ) (parent : KPath) {ret : Ptr}
    {w' : World Call Trfs}
    → w.vars.d_fsdata (env.reply (dget_parent d) w.trace) ≡ some parent
    → ((t : Trace Call) → env.reply (is_root d) t ≡ pos 0)
    → TestsInodes env w.vars.lower_inode
    → trfs_lookup dir d flags env w ≡ some (ret, w')
    → (ret ≡ enomem) ⊎ Outcome env d parent ret w'.vars
unfolding trfs_lookup trfs_get_lower_path trfs_put_lower_path
trfs_lookup-Outcome env w dir d flags parent {ret} {w'} at inner tests h =
    let p = env.reply (dget_parent d) w.trace in
    let w1 = called env (spin_lock p) (called env (dget_parent d) w) in
    let w2 = called env (spin_unlock p) (called env (path_get parent) w1) in
    elim (Option-cases (find d flags p parent env w2)) [
      | inl e ↦ absurd (ground arith)
      | inr ((x, w3), e) ↦
          let (same, vars) : (ret ≡ x) × (w'.vars ≡ w3.vars) = ground arith in
          rw (same, vars) (find_lem env d parent w2 flags p inner tests e)
    ]
