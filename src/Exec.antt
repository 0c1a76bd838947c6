-- ===== src/Exec.antt =====
-- A Go function that changes a state of type S: it returns a value, returns an error, panics (a nil
-- dereference), ends the process (log.Fatal), or is still waiting for its stream. What was written
-- before an error or a panic stays written, so the state comes back beside every outcome.
pub mod Keeps
use g_rpc_playground.Prelude.{Bool, true, false, Option, none, some}
use g_rpc_playground.Status.{Error}

pub data Outcome {ℓ} (A : Type ℓ) : Type ℓ where
  ret : A → Outcome A
  fail : Error → Outcome A
  panicked exited waiting : Outcome A

-- What a call that changes nothing of the state returned: a value or an error.
pub data Result {ℓ} (A : Type ℓ) : Type ℓ where
  ok : A → Result A
  err : Error → Result A

abbrev pub is_ret {ℓ} : {A : Type ℓ} → Outcome A → Bool
is_ret (ret a) = true
is_ret (fail e) = false
is_ret panicked = false
is_ret exited = false
is_ret waiting = false

-- What a caller makes of the error that a call returned.
module _ {ℓ} {A : Type ℓ} where
  abbrev pub map_fail : (Error → Error) → Outcome A → Outcome A
  map_fail f (ret a) = ret a
  map_fail f (fail e) = fail (f e)
  map_fail f panicked = panicked
  map_fail f exited = exited
  map_fail f waiting = waiting

-- if err != nil { log.Fatal(err) }, around what a call returned.
abbrev pub exit_fail {ℓ} : {A : Type ℓ} → Outcome A → Outcome A
exit_fail (ret a) = ret a
exit_fail (fail e) = exited
exit_fail panicked = panicked
exit_fail exited = exited
exit_fail waiting = waiting

abbrev pub Exec {ℓ} : Type ℓ → Type ℓ → Type ℓ
Exec S A = S → Outcome A × S

module _ {ℓ} {S A : Type ℓ} where
  abbrev pub pure : A → Exec S A
  pure a s = (ret a, s)

  abbrev pub raise : Error → Exec S A
  raise e s = (fail e, s)

  abbrev pub panic : Exec S A
  panic s = (panicked, s)

  -- x.f, for a pointer x: nil panics.
  abbrev pub deref : Option A → Exec S A
  deref none s = (panicked, s)
  deref (some a) s = (ret a, s)

  abbrev pub exit : Exec S A
  exit s = (exited, s)

  abbrev pub wait : Exec S A
  wait s = (waiting, s)

  abbrev pub gets : (S → A) → Exec S A
  gets f s = (ret (f s), s)

  -- if err != nil { return f(err) }, around a call.
  abbrev pub or_error : Exec S A → (Error → Error) → Exec S A
  or_error m f s = let (r, s') = m s in (map_fail f r, s')

  abbrev pub lift : Result A → Exec S A
  lift (ok a) s = (ret a, s)
  lift (err e) s = (fail e, s)

  abbrev pub or_exit : Exec S A → Exec S A
  or_exit m s = let (r, s') = m s in (exit_fail r, s')

module _ {ℓ} {S : Type ℓ} where
  abbrev pub modify : (S → S) → Exec S Unit
  modify f s = (ret tt, f s)

  -- if err != nil { return err }, for an error that was computed before.
  abbrev pub check : Option Error → Exec S Unit
  check none s = (ret tt, s)
  check (some e) s = (fail e, s)

module _ {ℓ} {S A B : Type ℓ} where
  abbrev pub continue : Outcome A → (A → Exec S B) → Exec S B
  continue (ret a) f s = f a s
  continue (fail e) f s = (fail e, s)
  continue panicked f s = (panicked, s)
  continue exited f s = (exited, s)
  continue waiting f s = (waiting, s)

  infixl 10 ◌>>=◌ ◌>>◌
  abbrev pub ◌>>=◌ : Exec S A → (A → Exec S B) → Exec S B
  ◌>>=◌ m f s = let (r, s') = m s in continue r f s'

  abbrev pub ◌>>◌ : Exec S A → Exec S B → Exec S B
  m >> n = m >>= λ _. n

-- A call on a part of the state.
module _ {ℓ} {S T A : Type ℓ} where
  abbrev pub zoom : (S → T) → (S → T → S) → Exec T A → Exec S A
  zoom get set m s = let (r, t) = m (get s) in (r, set s t)
