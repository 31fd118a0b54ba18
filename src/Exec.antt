-- ===== src/Exec.antt =====
-- Code that calls an environment, such as the kernel's API or the system calls of a process.
-- Every call is put on a trace with its reply, newest first. The environment `Env` answers a call
-- from the call and the whole trace before it, so nothing is assumed of it. A run that ends in
-- undefined behaviour, a kernel oops or a `BUG_ON`, and one whose fuel runs out, is `none`.
use trace_file_system.Prelude.{ℕ, ℤ, Bool, Option, none, some, List, ◌∷◌, if◌then◌else◌}

abbrev pub Trace : Type 0 → Type 0
Trace C = List (C × ℤ)

-- `bytes` is the text or the data that a call hands back beside its value.
pub record Env (C : Type 0) : Type 0 where
  pub reply : C → Trace C → ℤ
  pub bytes : C → Trace C → List ℕ

-- `vars` are the variables that the program itself keeps.
pub record World (C S : Type 0) : Type 0 where
  pub trace : Trace C
  pub vars : S

abbrev pub Exec : Type 0 → Type 0 → Type 0 → Type 0
Exec C S A = Env C → World C S → Option (A × World C S)

module _ {C S A : Type 0} where
  abbrev pub pure : A → Exec C S A
  pure a env w = some (a, w)

  -- an oops, a `BUG_ON`, undefined behaviour
  abbrev pub crash : Exec C S A
  crash env w = none

  abbrev pub gets : (S → A) → Exec C S A
  gets f env w = some (f w.vars, w)

  abbrev pub or_crash : Option A → Exec C S A
  or_crash none env w = none
  or_crash (some a) env w = some (a, w)

module _ {C S : Type 0} where
  abbrev pub modify : (S → S) → Exec C S (Unit {0})
  modify f env w = some (tt, record w { vars = f w.vars })

  abbrev pub call : C → Exec C S ℤ
  call c env w = some (env.reply c w.trace, record w { trace = (c, env.reply c w.trace) ∷ w.trace })

  -- a call whose value is not used
  abbrev pub call_ : C → Exec C S (Unit {0})
  call_ c env w = some (tt, record w { trace = (c, env.reply c w.trace) ∷ w.trace })

  -- a call that hands back a value and bytes
  abbrev pub call_bytes : C → Exec C S (ℤ × List ℕ)
  call_bytes c env w = some (
    (env.reply c w.trace, env.bytes c w.trace),
    record w { trace = (c, env.reply c w.trace) ∷ w.trace },
  )

  -- a field of an object of the environment, as it is now; no call is made
  abbrev pub peek : C → Exec C S ℤ
  peek c env w = some (env.reply c w.trace, w)

  abbrev pub peek_bytes : C → Exec C S (List ℕ)
  peek_bytes c env w = some (env.bytes c w.trace, w)

infixl 5 ◌>>=◌ ◌>>◌
abbrev pub ◌>>=◌ : {C S A B : Type 0} → Exec C S A → (A → Exec C S B) → Exec C S B
◌>>=◌ m f env w = elim (m env w) [ none ↦ none | some (a, w') ↦ f a env w' ]

abbrev pub ◌>>◌ : {C S A B : Type 0} → Exec C S A → Exec C S B → Exec C S B
m >> k = m >>= λ _. k

-- `if (b) m;`
abbrev pub if_do : {C S : Type 0} → Bool → Exec C S (Unit {0}) → Exec C S (Unit {0})
if_do b m = if b then m else pure tt

-- `BUG_ON(b)`
abbrev pub bug_on : {C S : Type 0} → Bool → Exec C S (Unit {0})
bug_on b = if b then crash else pure tt
