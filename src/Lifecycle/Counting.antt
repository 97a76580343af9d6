-- ===== src/Lifecycle/Counting.antt =====
-- Sequences of method calls on one `Result` object (result.py): its state, counters and storage.
use project_mognet.Prelude.{
  ◌≡◌, refl, ℕ, zero, suc, ◌+◌, some, none, Option, if◌then◌else◌, true, arith, String, List, [],
  ◌∷◌, length, is_some,
}
use project_mognet.Prelude.Dict
use project_mognet.Prelude.Eq.{nat_eq, ◌==◌}
use project_mognet.Model.State.{ResultState}
use project_mognet.Model.Value.{Python, Value, Exn}
use project_mognet.Model.Result.{Result, done, fresh, unexpected_retry_count}
use project_mognet.Backend.Memory.{Backend}
use project_mognet.Backend.Memory
use project_mognet.Lifecycle.{set_result, set_error, start, resume, suspend, revoke}

-- The methods of `Result` that write, with their arguments.
pub data Call : Type 0 where
  starts : (node : Option String) (now : ℕ) → Call
  resumes : (node : Option String) → Call
  suspends : Call
  revokes : (now : ℕ) → Call
  sets_result : (v : Value) (state : ResultState) (now : ℕ) → Call
  sets_error : (exc : Exn) (state : ResultState) (now : ℕ) → Call

module _ (py : Python) where
  unfoldable pub call : Call → Result → Backend → Result × Backend
  call (starts n now) = start n now
  call (resumes n) = resume n
  call suspends = suspend
  call (revokes now) = revoke now
  call (sets_result v state now) = set_result py v state now
  call (sets_error exc state now) = set_error py exc state now

  unfoldable pub calls : List Call → Result → Backend → Result × Backend
  unfolding call
  calls [] r b = (r, b)
  calls (c ∷ cs) r b = let (r', b') = call c r b in calls cs r' b'

module _ (py : Python) where
  call_counted :
      (c : Call) (r : Result) (b : Backend)
      → let r' = (call py c r b).0 in
        (r'.id ≡ r.id)
        × (r'.number_of_starts + r'.number_of_stops ≡ r.number_of_starts + r.number_of_stops + 1)
  unfolding call start resume suspend revoke set_result set_error
  call_counted (starts n now) r b = (refl, omega arith)
  call_counted _ r b = (refl, omega arith)

  call_stored :
      (c : Call) (r : Result) (b : Backend) (j : ℕ)
      → Memory.get j (call py c r b).1
        ≡ (if r.id == j then some (call py c r b).0 else Memory.get j b)
  unfolding call start resume suspend revoke set_result set_error Memory.get Memory.set
      Memory.set_value
  call_stored (starts n now) r b j = Dict.lookup-insert r.id j _ b.results
  call_stored _ r b j = Dict.lookup-insert r.id j _ b.results

  call_finished :
      (c : Call) (r : Result) (b : Backend)
      → let r' = (call py c r b).0 in done r' ≡ true → is_some r'.finished ≡ true
  unfolding call start resume suspend revoke set_result set_error done
  call_finished (starts n now) r b = ground arith
  call_finished _ r b = ground arith

  -- Each call of a method of a result adds one to exactly one of the two counters and keeps the id,
  -- so after any sequence of calls the counters have grown by its length together.
  pub calls_counted :
      (cs : List Call) (r : Result) (b : Backend)
      → let r' = (calls py cs r b).0 in
        (r'.id ≡ r.id)
        × (r'.number_of_starts + r'.number_of_stops
            ≡ r.number_of_starts + r.number_of_stops + length cs)
  unfolding calls
  calls_counted [] r b = (refl, omega arith)
  calls_counted (c ∷ cs) r b =
      ground (arith, call_counted c r b, calls_counted cs (call py c r b).0 (call py c r b).1)

  -- After any sequence of calls that is not empty the backend holds the object as it is, under its
  -- id, and what it holds under every other id is unchanged.
  pub calls_stored :
      (c : Call) (cs : List Call) (r : Result) (b : Backend) (j : ℕ)
      → Memory.get j (calls py (c ∷ cs) r b).1
        ≡ (if r.id == j then some (calls py (c ∷ cs) r b).0 else Memory.get j b)
  unfolding calls
  calls_stored c [] r b j = call_stored c r b j
  calls_stored c (d ∷ cs) r b j =
      let (r', b') = call py c r b in
      ground (arith, calls_stored d cs r' b' j, call_stored c r b j, call_counted c r b)

  -- A result that was done only with a finishing time keeps that so through any calls.
  pub calls_finished :
      (cs : List Call) (r : Result) (b : Backend)
      → (done r ≡ true → is_some r.finished ≡ true)
      → let r' = (calls py cs r b).0 in done r' ≡ true → is_some r'.finished ≡ true
  unfolding calls
  calls_finished [] r b h = h
  calls_finished (c ∷ cs) r b h =
      let (r', b') = call py c r b in calls_finished cs r' b' (call_finished c r b)

  -- A task that was killed while it ran: it started again and again and never stopped.
  abbrev pub crashes : ℕ → List Call
  crashes zero = []
  crashes (suc n) = starts none n ∷ crashes n

  crashes_counted :
      (n : ℕ) (r : Result) (b : Backend)
      → let r' = (calls py (crashes n) r b).0 in
        (r'.number_of_starts ≡ r.number_of_starts + n) × (r'.number_of_stops ≡ r.number_of_stops)
  unfolding calls start
  crashes_counted zero r b = (omega arith, refl)
  crashes_counted (suc n) r b =
      let (r', b') = call py (starts none n) r b in ground (arith, crashes_counted n r' b')

  -- A fresh result that was started n times and never stopped counts n unexpected retries.
  pub unexpected_retry_count-crashes :
      (n id : ℕ) (b : Backend) → unexpected_retry_count (calls py (crashes n) (fresh id) b).0 ≡ n
  unfolding unexpected_retry_count
  unexpected_retry_count-crashes n id b = omega (arith, crashes_counted n (fresh id) b)
