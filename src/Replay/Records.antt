-- ===== src/Replay/Records.antt =====
-- The loop over a chunk is the replay of the records in it, one after the other.
use trace_file_system.Prelude.{
  ℕ, zero, suc, ◌+◌, ◌≤◌, ◌<◌, true, false, ℤ, pos, ◌+ℤ◌, ◌≡◌, refl, sym, ap, ◌∙◌, inl, inr, Option,
  Option-cases, none, some, List, [], ◌∷◌, ◌++◌, append_assoc, ltb, lt→ltb, arith, length,
  length-append,
}
use mathlib.Core.Path.{subst}
use trace_file_system.Exec.{Env, World, ◌>>=◌}
use trace_file_system.Record.{TrRecord}
use trace_file_system.Record.Layout.{image}
use trace_file_system.Record.Shape.{IsSized, length-image}
use trace_file_system.Replay.{Sys, Process, Options}
use trace_file_system.Replay.Switch.{Next, go, out}
use trace_file_system.Replay.Chunk.{Round, after_round, replay_record, replay_chunk}
use trace_file_system.Replay.RoundTrip.{
  IsReplayable, images, replay_one, after_one, replay_records, replay_record_lem,
}

abbrev pub AllReplayable : List TrRecord → Type 0
AllReplayable [] = Unit
AllReplayable (r ∷ rs) = IsReplayable r × AllReplayable rs

after_round-after_one :
    (n : Next) (k : ℕ) (a : Option (List ℕ)) (f : ℤ → ℕ → Process (Next × Option (List ℕ)))
    (g : ℤ → Process (Next × Option (List ℕ))) (env : Env Sys) (w : World Sys Unit)
    → ((err : ℤ) → f err k env w ≡ g err env w)
    → after_round n (pos k) a f env w ≡ after_one n a g env w
unfolding after_round after_one
after_round-after_one (go err) k a f g env w h = h err
after_round-after_one (out err) k a f g env w h = refl

replay_one_size :
    (o : Options) (r : TrRecord) (err : ℤ) (auxpath : Option (List ℕ)) (env : Env Sys)
    (w : World Sys Unit) {n : Round} {w' : World Sys Unit}
    → replay_one o r err auxpath env w ≡ some (n, w')
    → n.size ≡ r.rec_size
unfolding replay_one
replay_one_size o r err auxpath env w h = ground arith

-- `buf` behind the record.
moved :
    (front : List ℕ) (r : TrRecord) (size : ℤ)
    → IsSized r
    → size ≡ r.rec_size
    → pos (length front) +ℤ size ≡ pos (length (front ++ image r))
unfolding ◌+ℤ◌
moved front r size s e =
    let whole : size ≡ pos (length (image r)) = e ∙ sym (length-image r s) in
    rw whole (ground (arith, length-append front (image r)))

pub image_pos : (r : TrRecord) → IsSized r → 32 ≤ length (image r)
image_pos r s = ground (arith, length-image r s, s.rec_size)

module _ (o : Options) (m : List ℕ) (limit off : ℕ) (err : ℤ) (auxpath : Option (List ℕ))
    (env : Env Sys) (w : World Sys Unit) (inside : ltb off limit ≡ true) where
  chunk_crashes :
      (fuel : ℕ)
      → replay_record o m off err auxpath env w ≡ none
      → replay_chunk (suc fuel) o m limit off err auxpath env w ≡ none
  unfolding replay_chunk
  chunk_crashes fuel h = rw (inside, replay_chunk, h, ◌>>=◌)

  chunk_goes_on :
      (fuel : ℕ) (n : Round) (w' : World Sys Unit)
      → replay_record o m off err auxpath env w ≡ some (n, w')
      → replay_chunk (suc fuel) o m limit off err auxpath env w
        ≡ after_round n.next
            (pos off +ℤ n.size)
            n.auxpath
            (λ err off. replay_chunk fuel o m limit off err n.auxpath)
            env
            w'
  unfolding replay_chunk
  chunk_goes_on fuel n w' h = rw (inside, replay_chunk, h, ◌>>=◌)

module _ (o : Options) (r : TrRecord) (rs : List TrRecord) (err : ℤ) (auxpath : Option (List ℕ))
    (env : Env Sys) (w : World Sys Unit) where
  records_crash :
      replay_one o r err auxpath env w ≡ none → replay_records o (r ∷ rs) err auxpath env w ≡ none
  unfolding replay_records
  records_crash h = rw (h, ◌>>=◌)

  records_go_on :
      (n : Round) (w' : World Sys Unit)
      → replay_one o r err auxpath env w ≡ some (n, w')
      → replay_records o (r ∷ rs) err auxpath env w
        ≡ after_one n.next n.auxpath (λ err. replay_records o rs err n.auxpath) env w'
  unfolding replay_records
  records_go_on n w' h = rw (h, ◌>>=◌)

-- On a buffer that holds the bytes of replayable records from the end of `front` to `limit`, the loop
-- does what the list of records says, from any environment and state and whatever stands behind
-- them, if its fuel is more than the number of records.
pub replay_chunk-records :
    (rs : List TrRecord) (o : Options) (front back : List ℕ) (fuel limit : ℕ) (err : ℤ)
    (auxpath : Option (List ℕ)) (env : Env Sys) (w : World Sys Unit)
    → AllReplayable rs
    → length rs < fuel
    → limit ≡ length front + length (images rs)
    → replay_chunk fuel o (front ++ (images rs ++ back)) limit (length front) err auxpath env w
      ≡ replay_records o rs err auxpath env w
unfolding replay_chunk replay_records
replay_chunk-records rs o front back zero limit err auxpath env w ok enough e = absurd (omega arith)
replay_chunk-records [] o front back (suc fuel) limit err auxpath env w ok enough e =
    let past : ltb (length front) limit ≡ false = ground arith in rw (past, replay_chunk)
replay_chunk-records (r ∷ rs) o front back (suc fuel) limit err auxpath env w ok enough e =
    subst
      (λ m.
        replay_chunk (suc fuel) o m limit (length front) err auxpath env w
        ≡ replay_records o (r ∷ rs) err auxpath env w)
      (ap (λ l. front ++ l) (sym (append_assoc (image r) (images rs) back)))
      (elim (Option-cases (replay_one o r err auxpath env w)) [
        | inl h ↦
            chunk_crashes o chunk limit (length front) err auxpath env w inside fuel (round ∙ h)
            ∙ sym (records_crash o r rs err auxpath env w h)
        | inr ((n, w'), h) ↦
            chunk_goes_on o chunk limit (length front) err auxpath env w inside fuel n w'
              (round ∙ h)
            ∙ ap
                (λ k.
                  after_round n.next k n.auxpath
                    (λ err off. replay_chunk fuel o chunk limit off err n.auxpath) env w')
                (moved front r n.size ok.0.sized (replay_one_size o r err auxpath env w h))
            ∙ after_round-after_one n.next (length (front ++ image r)) n.auxpath _
                (λ err. replay_records o rs err n.auxpath) env w'
                (λ err. rest_of n err w' (
                  replay_chunk-records rs o (front ++ image r) back fuel limit err n.auxpath env w'
                    ok.1 (omega arith) limit_rest))
            ∙ sym (records_go_on o r rs err auxpath env w n w' h)
      ])
  where
    chunk : List ℕ
    chunk = front ++ (image r ++ (images rs ++ back))

    inside : ltb (length front) limit ≡ true
    inside = lt→ltb _ _ (omega (arith, image_pos r ok.0.sized, length-append (image r) (images rs)))

    round :
        replay_record o chunk (length front) err auxpath env w ≡ replay_one o r err auxpath env w
    round = replay_record_lem o front (images rs ++ back) r ok.0 err auxpath env w

    limit_rest : limit ≡ length (front ++ image r) + length (images rs)
    limit_rest = omega (arith, length-append front (image r), length-append (image r) (images rs))

    rest_of :
        (n : Round) (err : ℤ) (w' : World Sys Unit)
        → replay_chunk fuel o
            ((front ++ image r) ++ (images rs ++ back))
            limit
            (length (front ++ image r))
            err
            n.auxpath
            env
            w'
          ≡ replay_records o rs err n.auxpath env w'
        → replay_chunk fuel o chunk limit (length (front ++ image r)) err n.auxpath env w'
          ≡ replay_records o rs err n.auxpath env w'
    rest_of n err w' h =
        subst
          (λ m.
            replay_chunk fuel o m limit (length (front ++ image r)) err n.auxpath env w'
            ≡ replay_records o rs err n.auxpath env w')
          (append_assoc front (image r) (images rs ++ back)) h
