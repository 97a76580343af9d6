-- ===== src/Broker/Amqp/Declaring.antt =====
-- `_get_or_create_task_queue` as tasks that run at the same time: each `await` may let another go on,
-- and `_lock` is what keeps them apart. The first test and the second one with what follows it up to
-- the next `await` are a step each.
use project_mognet.Prelude.{
  ℕ, String, ◌≡◌, ◌≢◌, refl, ap, sym, ◌∙◌, Bool, true, false, ◌⊎◌, Option, none, some, List, [],
  ◌∷◌, arith, contains, if◌then◌else◌, Bool-cases, inl, inr,
}
use project_mognet.Prelude.Eq.{nat_eq, string_eq, ◌==◌, ==_eq}

-- Where a task stands: before the first test, waiting for the lock, holding it before the second
-- test, awaiting the declaration, awaiting the binding, or at its end, with the queue or an error.
pub data Place : Type 0 where
  first_test locking second_test declaring binding returned raised : Place

-- Whether a task at a place holds the lock.
abbrev pub holds : Place → Bool
holds second_test = true
holds declaring = true
holds binding = true
holds _ = false

abbrev pub is_declaring : Place → Bool
is_declaring declaring = true
is_declaring _ = false

-- The dictionary's keys, who holds the lock, the queues that the server declared, the last one in
-- front, and the place of each task.
pub record State : Type 0 where
  pub task_queues : List String
  pub lock : Option ℕ
  pub declared : List String
  pub place : ℕ → Place

abbrev pub move : ℕ → Place → State → ℕ → Place
move p at s q = if p == q then at else s.place q

second_test≢declaring : ¬ (second_test ≡ declaring)
second_test≢declaring e = cc

binding≢declaring : ¬ (binding ≡ declaring)
binding≢declaring e = cc

-- `name` is the queue that each task asks for.
module _ (name : ℕ → String) where
  pub data Step (s : State) : State → Type 0 where
    finds_it :
        (p : ℕ)
        → s.place p ≡ first_test
        → contains (name p) s.task_queues ≡ true
        → Step s (record s { place = move p returned s })
    misses_it :
        (p : ℕ)
        → s.place p ≡ first_test
        → contains (name p) s.task_queues ≡ false
        → Step s (record s { place = move p locking s })
    locks :
        (p : ℕ)
        → s.place p ≡ locking
        → s.lock ≡ none
        → Step s (record s { lock = some p; place = move p second_test s })
    finds_it_then :
        (p : ℕ)
        → s.place p ≡ second_test
        → contains (name p) s.task_queues ≡ true
        → Step s (record s { lock = none; place = move p returned s })
    declares :
        (p : ℕ)
        → s.place p ≡ second_test
        → contains (name p) s.task_queues ≡ false
        → Step s (record s { place = move p declaring s })
    is_declared :
        (p : ℕ)
        → s.place p ≡ declaring
        → Step s (record s {
          task_queues = name p ∷ s.task_queues;
          declared = name p ∷ s.declared;
          place = move p binding s;
        })
    is_refused :
        (p : ℕ) → s.place p ≡ declaring → Step s (record s { lock = none; place = move p raised s })
    is_bound :
        (p : ℕ) → s.place p ≡ binding → Step s (record s { lock = none; place = move p returned s })
    is_not_bound :
        (p : ℕ) → s.place p ≡ binding → Step s (record s { lock = none; place = move p raised s })

  pub data Steps (s : State) : State → Type 0 where
    here : Steps s s
    more : (t u : State) → Steps s t → Step t u → Steps s u

  -- Before anything was asked for.
  abbrev pub start : State
  start = record { task_queues = []; lock = none; declared = []; place = λ p. first_test }

  -- No queue was declared twice.
  abbrev pub IsOnce : List String → Type 0
  IsOnce [] = Unit
  IsOnce (q ∷ qs) = (contains q qs ≡ false) × IsOnce qs

  record IsSafe (s : State) : Type 0 where
    once : IsOnce s.declared
    listed : s.declared ≡ s.task_queues
    held : (p : ℕ) → holds (s.place p) ≡ true → s.lock ≡ some p
    unlisted : (p : ℕ) → s.place p ≡ declaring → contains (name p) s.task_queues ≡ false

  -- A task that moves: it is there, and the others are where they were.
  moved :
      (p q : ℕ) (to : Place) (s : State)
      → (p ≡ q) × (move p to s q ≡ to) ⊎ (p ≢ q) × (move p to s q ≡ s.place q)
  moved p q to s = elim (Bool-cases (p == q)) [
    | inl same ↦ inl (==_eq p q same, ground arith)
    | inr other ↦ inr ((λ e. ground arith), ground arith)
  ]

  holder_is_one :
      {s : State}
      → IsSafe s
      → (p q : ℕ) → holds (s.place p) ≡ true
      → holds (s.place q) ≡ true
      → p ≡ q
  holder_is_one safe p q hp hq = let a = safe.held p hp in let b = safe.held q hq in cc

  -- A task goes on to a place without the lock: either it had none, or it gives it back.
  pass :
      (s : State) (p : ℕ) (to : Place)
      → holds to ≡ false
      → IsSafe s
      → IsSafe (record s { place = move p to s })
  pass s p to free safe = record {
    once = safe.once;
    listed = safe.listed;
    held = λ q h. elim (moved p q to s) [
      | inl (same, there) ↦ ground arith
      | inr (other, stays) ↦ safe.held q (ap holds (sym stays) ∙ h)
    ];
    unlisted = λ q e. elim (moved p q to s) [
      | inl (same, there) ↦ let h = ap holds (sym there ∙ e) in ground arith
      | inr (other, stays) ↦ safe.unlisted q (sym stays ∙ e)
    ];
  }

  leave :
      (s : State) (p : ℕ) (to : Place)
      → holds to ≡ false
      → holds (s.place p) ≡ true
      → IsSafe s
      → IsSafe (record s { lock = none; place = move p to s })
  leave s p to free held_by safe = record {
    once = safe.once;
    listed = safe.listed;
    held = λ q h. elim (moved p q to s) [
      | inl (same, there) ↦ ground arith
      | inr (other, stays) ↦
          absurd (other (holder_is_one safe p q held_by (ap holds (sym stays) ∙ h)))
    ];
    unlisted = λ q e. elim (moved p q to s) [
      | inl (same, there) ↦ let h = ap holds (sym there ∙ e) in ground arith
      | inr (other, stays) ↦ safe.unlisted q (sym stays ∙ e)
    ];
  }

  step-IsSafe : (s t : State) → IsSafe s → Step s t → IsSafe t
  step-IsSafe s _ safe (finds_it p at found) = pass s p returned refl safe
  step-IsSafe s _ safe (misses_it p at missing) = pass s p locking refl safe
  step-IsSafe s _ safe (locks p at free) = record {
    once = safe.once;
    listed = safe.listed;
    held = λ q h. elim (moved p q second_test s) [
      | inl (same, there) ↦ ap some same
      | inr (other, stays) ↦ let taken = safe.held q (ap holds (sym stays) ∙ h) in absurd (cc)
    ];
    unlisted = λ q e. elim (moved p q second_test s) [
      | inl (same, there) ↦ absurd (second_test≢declaring (sym there ∙ e))
      | inr (other, stays) ↦ safe.unlisted q (sym stays ∙ e)
    ];
  }
  step-IsSafe s _ safe (finds_it_then p at found) = leave s p returned refl (ap holds at) safe
  step-IsSafe s _ safe (declares p at missing) = record {
    once = safe.once;
    listed = safe.listed;
    held = λ q h. elim (moved p q declaring s) [
      | inl (same, there) ↦ safe.held p (ap holds at) ∙ ap some same
      | inr (other, stays) ↦ safe.held q (ap holds (sym stays) ∙ h)
    ];
    unlisted = λ q e. elim (moved p q declaring s) [
      | inl (same, there) ↦ rw (← same) missing
      | inr (other, stays) ↦ safe.unlisted q (sym stays ∙ e)
    ];
  }
  step-IsSafe s _ safe (is_declared p at) = record {
    once = (rw (safe.listed) (safe.unlisted p at), safe.once);
    listed = ap (λ qs. name p ∷ qs) safe.listed;
    held = λ q h. elim (moved p q binding s) [
      | inl (same, there) ↦ safe.held p (ap holds at) ∙ ap some same
      | inr (other, stays) ↦ safe.held q (ap holds (sym stays) ∙ h)
    ];
    unlisted = λ q e. elim (moved p q binding s) [
      | inl (same, there) ↦ absurd (binding≢declaring (sym there ∙ e))
      | inr (other, stays) ↦
          absurd (other (holder_is_one safe p q (ap holds at) (ap holds (sym stays ∙ e))))
    ];
  }
  step-IsSafe s _ safe (is_refused p at) = leave s p raised refl (ap holds at) safe
  step-IsSafe s _ safe (is_bound p at) = leave s p returned refl (ap holds at) safe
  step-IsSafe s _ safe (is_not_bound p at) = leave s p raised refl (ap holds at) safe

  steps-IsSafe : (s t : State) → IsSafe s → Steps s t → IsSafe t
  steps-IsSafe s _ safe here = safe
  steps-IsSafe s u safe (more t _ steps step) = step-IsSafe t u (steps-IsSafe s t safe steps) step

  start-IsSafe : IsSafe start
  start-IsSafe = record {
    once = tt;
    listed = refl;
    held = λ p h. absurd (cc);
    unlisted = λ p e. unfold contains in refl;
  }

  -- However tasks that ask for queues take turns, the server declares no queue twice, and those that
  -- it declared are the ones that the dictionary has.
  pub steps-IsOnce : (s : State) → Steps start s → IsOnce s.declared × (s.declared ≡ s.task_queues)
  steps-IsOnce s steps =
      let safe = steps-IsSafe start s start-IsSafe steps in (safe.once, safe.listed)
