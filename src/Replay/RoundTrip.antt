-- ===== src/Replay/RoundTrip.antt =====
-- What treplay reads from a chunk is the records that were written to it.
use trace_file_system.Prelude.{
  ℕ, ◌+◌, ◌≤◌, ℤ, pos, pos_part, ◌==ℤ◌, ◌≡◌, refl, ap, ◌∙◌, true, false, Bool-cases, Option-cases,
  inl, inr, Option, some, List, [], ◌∷◌, ◌++◌, append_assoc, ◌==◌, lt→ltb, le→leb, arith, length,
  length-append, drop, take-append, drop-append, if◌then◌else◌,
}
use trace_file_system.Exec.{Env, World, pure, ◌>>=◌}
use trace_file_system.Record.{TrRecord, header, aux_chars, tr_fwrite, tr_symlink}
use trace_file_system.Record.Layout.{image, fields, read_fields}
use trace_file_system.Record.Shape.{IsRecord, IsSized, read_fields-header, length-header}
use trace_file_system.Replay.{Sys, Process, Options}
use trace_file_system.Replay.Switch.{Next, go, out, Job, replay_switch}
use trace_file_system.Replay.Chunk.{
  c_string, copy_string, resolve, write_data, find_aux, Round, replay_record,
}

abbrev pub NoNul : List ℕ → Type 0
NoNul [] = Unit
NoNul (c ∷ s) = ((c == 0) ≡ false) × NoNul s

-- A record that treplay can read: in range and sized, with texts that fit its buffers and hold no
-- NUL, and with a target if it is a symbolic link's.
pub record IsReplayable (r : TrRecord) : Type 0 where
  pub ranges : IsRecord r
  pub sized : IsSized r
  pub path_text : NoNul r.pathname.chars
  pub path_max : length r.pathname.chars ≤ 4095
  pub aux_text : (r.type == tr_fwrite) ≡ false → NoNul (aux_chars r) × (length (aux_chars r) ≤ 4095)
  pub target : (r.type == tr_symlink) ≡ true → (r.aux_len ==ℤ pos 0) ≡ false

abbrev pub images : List TrRecord → List ℕ
images [] = []
images (r ∷ rs) = image r ++ images rs

-- The replay of one record that is known as a record.
unfoldable pub replay_aux : TrRecord → Option (List ℕ) → Process (List ℕ × Option (List ℕ))
replay_aux r auxpath =
    if r.type == tr_fwrite
    then pure (aux_chars r, auxpath)
    else if r.aux_len ==ℤ pos 0
    then pure ([], auxpath)
    else if r.type == tr_symlink
    then pure (aux_chars r, auxpath)
    else do path ← resolve (aux_chars r); pure (aux_chars r, some path)

-- the `switch` on a job, as a round
abbrev switch_round : Options → TrRecord → ℤ → List ℕ → List ℕ × Option (List ℕ) → Process Round
switch_round o r err pathname (aux, auxpath) = do
  next ←
      replay_switch o
        (record { fields = fields r; pathname = pathname; aux = aux; auxpath = auxpath }) err
  pure (record { next = next; auxpath = auxpath; size = r.rec_size })

unfoldable pub replay_one : Options → TrRecord → ℤ → Option (List ℕ) → Process Round
replay_one o r err auxpath = do
  pathname ← resolve r.pathname.chars
  job ← replay_aux r auxpath
  switch_round o r err pathname job

-- The next record after one, unless the replay has ended.
unfoldable pub after_one :
    Next
    → Option (List ℕ)
    → (ℤ → Process (Next × Option (List ℕ)))
    → Process (Next × Option (List ℕ))
after_one (go err) auxpath k = k err
after_one (out err) auxpath k = pure (out err, auxpath)

-- The replay of a list of records, as a specification of the loop over a chunk.
unfoldable pub replay_records :
    Options → List TrRecord → ℤ → Option (List ℕ) → Process (Next × Option (List ℕ))
replay_records o [] err auxpath = pure (go err, auxpath)
replay_records o (r ∷ rs) err auxpath = do
  n ← replay_one o r err auxpath
  after_one n.next n.auxpath (λ err. replay_records o rs err n.auxpath)

c_string-NoNul : (s : List ℕ) → NoNul s → c_string s ≡ s
unfolding c_string
c_string-NoNul [] h = refl
c_string-NoNul (c ∷ s) h = rw h.0 (ap (λ t. c ∷ t) (c_string-NoNul s h.1))

copy_string_lem :
    (front s back : List ℕ) (n : ℕ)
    → n ≡ length front
    → NoNul s
    → length s ≤ 4095
    → copy_string (front ++ (s ++ back)) n (pos (length s)) ≡ some s
unfolding copy_string
copy_string_lem front s back n e text fits = rw (
  drop-append n front (s ++ back) e,
  take-append (length s) s back refl,
  c_string-NoNul s text,
  lt→ltb (length s) 4096 (omega arith),
  le→leb (n + length s) (length (front ++ (s ++ back)))
      (omega (arith, length-append front (s ++ back), length-append s back)),
)

-- `aux` is read by the cases of a write and of a symbolic link alone.
replay_switch_aux :
    (o : Options) (j : Job) (a : List ℕ) (err : ℤ)
    → (j.fields.type == tr_fwrite) ≡ false
    → (j.fields.type == tr_symlink) ≡ false
    → replay_switch o (record j { aux = a }) err ≡ replay_switch o j err
unfolding replay_switch
replay_switch_aux o j a err nf ns = rw (nf, ns)

module _ (o : Options) (front rest : List ℕ) (r : TrRecord) (ok : IsReplayable r) where
  abbrev chunk : List ℕ
  chunk = front ++ (image r ++ rest)

  path_split : chunk ≡ (front ++ header r) ++ (r.pathname.chars ++ (aux_chars r ++ rest))
  unfolding image
  path_split = simp append_assoc

  aux_split : chunk ≡ ((front ++ header r) ++ r.pathname.chars) ++ (aux_chars r ++ rest)
  unfolding image
  aux_split = simp append_assoc

  header_split : image r ++ rest ≡ header r ++ ((r.pathname.chars ++ aux_chars r) ++ rest)
  unfolding image
  header_split = simp append_assoc

  fields_read : read_fields (drop (length front) chunk) ≡ some (fields r)
  fields_read =
      rw (drop-append (length front) front (image r ++ rest) refl, header_split)
        (read_fields-header r ((r.pathname.chars ++ aux_chars r) ++ rest) ok.ranges)

  path_read : copy_string chunk (length front + 32) r.path_len ≡ some r.pathname.chars
  path_read =
      ap (copy_string chunk (length front + 32)) ok.sized.path_len
      ∙ rw path_split (
          copy_string_lem (front ++ header r) r.pathname.chars (aux_chars r ++ rest)
            (length front + 32) (omega (arith, length-append front (header r), length-header r))
            ok.path_text ok.path_max)

  aux_at :
      length front + 32 + pos_part r.path_len ≡ length ((front ++ header r) ++ r.pathname.chars)
  aux_at = omega (
    arith,
    ap pos_part ok.sized.path_len,
    length-append (front ++ header r) r.pathname.chars,
    length-append front (header r),
    length-header r,
  )

  data_read :
      write_data (drop (length front + 32 + pos_part r.path_len) chunk) r.aux_len ≡ aux_chars r
  unfolding write_data
  data_read =
      rw (aux_split, drop-append _ _ (aux_chars r ++ rest) aux_at, ok.sized.aux_len)
        (take-append (length (aux_chars r)) (aux_chars r) rest refl)

  aux_read :
      (r.type == tr_fwrite) ≡ false
      → copy_string chunk (length front + 32 + pos_part r.path_len) r.aux_len ≡ some (aux_chars r)
  aux_read nf =
      ap (copy_string chunk _) ok.sized.aux_len
      ∙ rw aux_split (
          copy_string_lem ((front ++ header r) ++ r.pathname.chars) (aux_chars r) rest _ aux_at
            (ok.aux_text nf).0 (ok.aux_text nf).1)

  no_link : (r.aux_len ==ℤ pos 0) ≡ true → (r.type == tr_symlink) ≡ false
  no_link z = elim (Bool-cases (r.type == tr_symlink)) [ inl s ↦ cc (z, ok.target s) | inr ns ↦ ns ]

  -- The auxiliary data that a round finds are those of the record; only where `aux` is not read may
  -- they differ.
  find_aux_switch :
      (err : ℤ) (auxpath : Option (List ℕ)) (pathname : List ℕ) (env : Env Sys) (w : World Sys Unit)
      → (find_aux chunk (length front + 32 + pos_part r.path_len) (fields r) auxpath
            >>= switch_round o r err pathname)
          env w
        ≡ (replay_aux r auxpath >>= switch_round o r err pathname) env w
  unfolding find_aux replay_aux
  find_aux_switch err auxpath pathname env w = elim (Bool-cases (r.type == tr_fwrite)) [
    | inl f ↦ rw (f, data_read)
    | inr nf ↦ elim (Bool-cases (r.aux_len ==ℤ pos 0)) [
      | inl z ↦ rw (
        nf,
        z,
        replay_switch_aux o
            (record { fields = fields r; pathname = pathname; aux = []; auxpath = auxpath })
            (c_string (drop (length front + 32 + pos_part r.path_len) chunk)) err nf (no_link z),
      )
      | inr nz ↦ rw (nf, nz, aux_read nf)
    ]
  ]

  -- On a buffer that holds the bytes of a replayable record behind `front`, one round of the loop
  -- at that offset is the replay of the record, from any environment and state.
  pub replay_record_lem :
      (err : ℤ) (auxpath : Option (List ℕ)) (env : Env Sys) (w : World Sys Unit)
      → replay_record o chunk (length front) err auxpath env w ≡ replay_one o r err auxpath env w
  unfolding replay_record replay_one
  replay_record_lem err auxpath env w = elim (Option-cases (resolve r.pathname.chars env w)) [
    | inl e ↦ rw (fields_read, ◌>>=◌, path_read, ◌>>=◌, e)
    | inr ((pathname, w'), e) ↦
        rw (fields_read, path_read, ◌>>=◌, e, ◌>>=◌) (find_aux_switch err auxpath pathname env w')
  ]
