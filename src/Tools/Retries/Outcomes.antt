-- ===== src/Tools/Retries/Outcomes.antt =====
-- How often a retried method is called, how long the waits are, and what comes out.
use mathlib.Core.List.{append-nil, append_assoc}
use native.Mathlib.Nat.{pow-suc, mul_assoc}
use Prim.Native.Nat.{◌^◌}
use project_mognet.Prelude.{
  ℕ, zero, suc, ◌+◌, ◌*◌, ◌<◌, min, ◌≡◌, refl, sym, ap, ◌∙◌, inl, inr, Bool-cases, Option, none,
  some, List, [], ◌∷◌, ◌++◌, arith,
}
use project_mognet.Model.Value.{Exn, plain}
use project_mognet.Backend.Memory.{Answer, ok, raised}
use project_mognet.Tools.Retries.{
  returned, listed, Script, Log, nothing_done, second, loop, retryableasyncmethod, redis_retry,
}

-- The waits `min(2^i s, limit)` for `n` exponents from `i` on.
abbrev pub backoff : ℕ → ℕ → ℕ → List ℕ
backoff timeout i zero = []
backoff timeout i (suc n) = min (second * 2 ^ i) timeout ∷ backoff timeout (suc i) n

module _ {A : Type 0} (script : Script A) where
  -- The `n` rounds from `k` on fail with the listed exceptions `e k`, and no recovery raises.
  abbrev pub FailsFrom : (ℕ → Exn) → ℕ → ℕ → Type 0
  FailsFrom e k zero = Unit
  FailsFrom e k (suc n) =
      (script.outcome k ≡ listed (e k)) × (script.recovery k ≡ none) × FailsFrom e (suc k) n

min_double : (a t : ℕ) → min (min a t * 2) t ≡ min (a * 2) t
min_double a t = omega arith

module _ {A : Type 0} (script : Script A) (timeout : ℕ) (e : ℕ → Exn) where
  waits_from : ℕ → ℕ → List ℕ
  waits_from wait zero = []
  waits_from wait (suc n) = wait ∷ waits_from (min (wait * 2) timeout) n

  waits_from-backoff : (i n : ℕ) → waits_from (min (second * 2 ^ i) timeout) n ≡ backoff timeout i n
  unfolding waits_from
  waits_from-backoff i zero = refl
  waits_from-backoff i (suc n) =
      let next : min (min (second * 2 ^ i) timeout * 2) timeout ≡ min (second * 2 ^ suc i) timeout =
        min_double (second * 2 ^ i) timeout
        ∙ ap (λ (x : ℕ). min x timeout)
            (mul_assoc second (2 ^ i) 2 ∙ ap (λ (x : ℕ). second * x) (sym (pow-suc 2 i))) in
      ap (λ (l : List ℕ). min (second * 2 ^ i) timeout ∷ l)
        (ap (λ (w : ℕ). waits_from w n) next ∙ waits_from-backoff (suc i) n)

  -- A round that fails with a listed exception, and whose recovery does not raise, goes on to the
  -- next one behind its wait.
  loop_fails :
      (left wait : ℕ) (last : Option Exn) (log : Log)
      → script.outcome log.tries ≡ listed (e log.tries)
      → script.recovery log.tries ≡ none
      → (log' : Log) × (log'.tries ≡ suc log.tries)
        × (log'.waits ≡ log.waits ++ wait ∷ [])
        × (loop script timeout (suc left) wait last log
            ≡ loop script timeout left (min (wait * 2) timeout) (some (e log.tries)) log')
  unfolding loop
  loop_fails left wait last log o r = elim (Bool-cases (script.locked log.tries)) [
    | inl held ↦ (
      record { tries = log.tries + 1; waits = log.waits ++ wait ∷ []; recoveries = log.recoveries },
      omega arith,
      refl,
      rw (o, held, loop) refl,
    )
    | inr free ↦ (
      record {
        tries = log.tries + 1;
        waits = log.waits ++ wait ∷ [];
        recoveries = log.recoveries + 1;
      },
      omega arith,
      refl,
      rw (o, free, r, loop) refl,
    )
  ]

  abbrev Ended : Option (Answer A) → ℕ → List ℕ → Option (Answer A) × Log → Type 0
  Ended result tries waits out = (out.0 ≡ result) × (out.1.tries ≡ tries) × (out.1.waits ≡ waits)

  waits_on :
      (log' : Log) (wait next n : ℕ) (log : Log)
      → log'.waits ≡ log.waits ++ wait ∷ []
      → log'.waits ++ waits_from next n ≡ log.waits ++ wait ∷ waits_from next n
  waits_on log' wait next n log w =
      ap (λ (l : List ℕ). l ++ waits_from next n) w
      ∙ append_assoc log.waits (wait ∷ []) (waits_from next n)

  loop_returns :
      (a : A) (j n left wait : ℕ) (last : Option Exn) (log : Log)
      → j ≡ log.tries + n
      → FailsFrom script e log.tries n
      → script.outcome j ≡ returned a
      → n < left
      → Ended
          (some (ok a))
          (j + 1)
          (log.waits ++ waits_from wait n)
          (loop script timeout left wait last log)
  unfolding loop waits_from
  loop_returns a j n zero wait last log i f r h = absurd (omega arith)
  loop_returns a j zero (suc left) wait last log i f r h =
      let here : script.outcome log.tries ≡ returned a = rw same at r in
      (
        rw (here, loop) refl,
        rw (here, loop) (omega arith),
        rw (here, loop) (sym (append-nil log.waits)),
      )
    where
      same : j ≡ log.tries
      same = omega arith
  loop_returns a j (suc n) (suc left) wait last log i f r h =
      let (log', t, w, step) = loop_fails left wait last log f.0 f.1 in
      let more =
        loop_returns a j n left (min (wait * 2) timeout) (some (e log.tries)) log' (omega arith)
          (rw t f.2) r (omega arith) in
      rw step (more.0, more.1, more.2 ∙ waits_on log' wait (min (wait * 2) timeout) n log w)

  loop_exhausted :
      (j n wait : ℕ) (last : Option Exn) (log : Log)
      → j ≡ log.tries + n
      → FailsFrom script e log.tries (suc n)
      → Ended
          (some (raised (e j)))
          (suc j)
          (log.waits ++ waits_from wait (suc n))
          (loop script timeout (suc n) wait last log)
  unfolding loop waits_from
  loop_exhausted j zero wait last log i f =
      let (log', t, w, step) = loop_fails zero wait last log f.0 f.1 in
      let same : j ≡ log.tries = omega arith in rw (step, same) (refl, t, w)
  loop_exhausted j (suc n) wait last log i f =
      let (log', t, w, step) = loop_fails (suc n) wait last log f.0 f.1 in
      let more =
        loop_exhausted j n (min (wait * 2) timeout) (some (e log.tries)) log' (omega arith)
          (rw t f.2) in
      rw step (more.0, more.1, more.2 ∙ waits_on log' wait (min (wait * 2) timeout) (suc n) log w)

module _ {A : Type 0} (script : Script A) (timeout : ℕ) (e : ℕ → Exn) where
  -- If the first `n` attempts fail with listed exceptions whose recoveries do not raise and the
  -- next one returns, then with more than `n` attempts allowed the call returns its value behind
  -- n + 1 attempts, and has waited min(2^i s, limit) behind each failed attempt i.
  pub retryableasyncmethod_returns :
      (a : A) (n attempts : ℕ)
      → FailsFrom script e 0 n
      → script.outcome n ≡ returned a
      → n < attempts
      → let (result, log) = retryableasyncmethod script timeout attempts in
        (result ≡ ok a) × (log.tries ≡ n + 1) × (log.waits ≡ backoff timeout 0 n)
  unfolding retryableasyncmethod
  retryableasyncmethod_returns a n attempts f r h =
      let out =
        loop_returns script timeout e a n n attempts (min second timeout) none nothing_done
          (omega arith) f r h in
      (
        rw (out.0, retryableasyncmethod) refl,
        out.1,
        out.2 ∙ waits_from-backoff script timeout e 0 n,
      )

  -- If at least one attempt is allowed, and all fail with listed exceptions whose recoveries do not
  -- raise, the call raises the last exception, and has waited min(2^i s, limit) behind each attempt
  -- i, the last one too.
  pub retryableasyncmethod_exhausted :
      (n : ℕ)
      → FailsFrom script e 0 (suc n)
      → let (result, log) = retryableasyncmethod script timeout (suc n) in
        (result ≡ raised (e n)) × (log.tries ≡ suc n) × (log.waits ≡ backoff timeout 0 (suc n))
  unfolding retryableasyncmethod
  retryableasyncmethod_exhausted n f =
      let out =
        loop_exhausted script timeout e n n (min second timeout) none nothing_done (omega arith)
          f in
      (
        rw (out.0, retryableasyncmethod) refl,
        out.1,
        out.2 ∙ waits_from-backoff script timeout e 0 (suc n),
      )

-- The Redis decorator waits a whole second behind a first failed attempt, also where the limit is
-- below that; with no attempt allowed it returns `None`, where the other one raises.
pub redis_retry_differs :
    {A : Type 0} (script : Script A) (timeout : ℕ) (e : ℕ → Exn) (a : A)
    → FailsFrom script e 0 1
    → script.outcome 1 ≡ returned a
    → ((redis_retry script timeout 2).1.waits ≡ second ∷ [])
      × ((retryableasyncmethod script timeout 2).1.waits ≡ min second timeout ∷ [])
      × ((redis_retry script timeout 0).0 ≡ none)
      × ((retryableasyncmethod script timeout 0).0 ≡ raised (plain "All 0 attempts failed"))
unfolding redis_retry retryableasyncmethod waits_from
redis_retry_differs script timeout e a f r = (
  (loop_returns script timeout e a 1 1 2 second none nothing_done (omega arith) f r
      (omega arith)).2,
  (loop_returns script timeout e a 1 1 2 (min second timeout) none nothing_done (omega arith) f r
      (omega arith)).2,
  refl,
  refl,
)
