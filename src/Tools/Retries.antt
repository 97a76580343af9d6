-- ===== src/Tools/Retries.antt =====
-- mognet/tools/retries.py, and the decorator `_retry` of mognet/backend/redis_result_backend.py.
-- What the wrapped method does is given by a script: the outcome of each attempt. Times are whole
-- microseconds.
pub mod Outcomes
use project_mognet.Prelude.{
  ℕ, zero, suc, ◌+◌, ◌*◌, min, Bool, true, false, Option, none, some, List, [], ◌∷◌, ◌++◌,
  if◌then◌else◌,
}
use project_mognet.Model.Value.{Exn, plain}
use project_mognet.Backend.Memory.{Answer, ok, raised}

-- One call of the wrapped method: it returns, raises one of the listed types, or another one.
pub data Attempt (A : Type 0) : Type 0 where
  returned : A → Attempt A
  listed other : Exn → Attempt A

-- What the surroundings do at the k-th attempt: its outcome, whether the lock is held by another
-- call behind it, and the exception that the recovery (`on_retry`, or the reconnection) raises.
pub record Script (A : Type 0) : Type 0 where
  pub outcome : ℕ → Attempt A
  pub locked : ℕ → Bool
  pub recovery : ℕ → Option Exn

-- What was done so far.
pub record Log : Type 0 where
  pub tries : ℕ
  pub waits : List ℕ
  pub recoveries : ℕ

abbrev pub nothing_done : Log
nothing_done = record { tries = 0; waits = []; recoveries = 0 }

abbrev pub second : ℕ
second = 1000000

module _ {A : Type 0} (script : Script A) (timeout : ℕ) where
  -- The `for` loop with `left` rounds left. `none` means that it ended without a return and without
  -- an exception, which happens where it has no round.
  unfoldable pub loop : ℕ → ℕ → Option Exn → Log → Option (Answer A) × Log
  loop zero wait last log = (elim last [ none ↦ none | some e ↦ some (raised e) ], log)
  loop (suc left) wait last log =
      let k = log.tries in
      let tried : Log = record log { tries = k + 1 } in
      elim (script.outcome k) [
        | returned a ↦ (some (ok a), tried)
        | other e ↦ (some (raised e), tried)
        | listed e ↦
            let slept : Log = record tried { waits = log.waits ++ wait ∷ [] } in
            elim (script.locked k) [
              | true ↦ loop left (min (wait * 2) timeout) (some e) slept
              | false ↦
                  let recovered : Log = record slept { recoveries = log.recoveries + 1 } in
                  elim (script.recovery k) [
                    | some x ↦ (some (raised x), recovered)
                    | none ↦ loop left (min (wait * 2) timeout) (some e) recovered
                  ]
            ]
      ]

  -- `retryableasyncmethod`: the first wait is at most the limit, and no attempt is an error.
  unfoldable pub retryableasyncmethod : ℕ → Answer A × Log
  unfolding loop
  retryableasyncmethod attempts =
      let (result, log) = loop attempts (min second timeout) none nothing_done in
      (elim result [ none ↦ raised (plain "All 0 attempts failed") | some r ↦ r ], log)

  -- The Redis decorator: the first wait is a second whatever the limit is, and no attempt returns
  -- `None`.
  unfoldable pub redis_retry : ℕ → Option (Answer A) × Log
  unfolding loop
  redis_retry attempts = loop attempts second none nothing_done
