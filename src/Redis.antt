-- ===== src/Redis.antt =====
-- The commands of Redis that the backends use, as an interface: what the server holds, what reading
-- gives, and how each command changes what reading gives. A hash that was never written reads as an
-- empty one, and a set likewise. No key is used both for a hash and for a set, and no key expires
-- while the model looks. A pipeline with `transaction=True` is the sequence of its commands.
use project_mognet.Prelude.{
  ℕ, ◌<◌, String, ◌≡◌, Bool, true, false, ◌&&◌, ◌||◌, Option, none, some, List, [], length,
  if◌then◌else◌, contains,
}
use project_mognet.Prelude.Dict
use project_mognet.Prelude.Dict.{Dict}
use project_mognet.Prelude.Eq.{string_eq, ◌==◌}

-- The value of a field after a mapping was written over it.
abbrev pub over {ℓ} : {A : Type ℓ} → Option A → Option A → Option A
over none old = old
over (some new) old = some new

pub record Redis : Type 1 where
  pub Store : Type 0
  -- EXISTS, HGETALL, and the members that SSCAN goes through, with their number, SCARD
  pub exists : String → Store → Bool
  pub hgetall : String → Store → Dict String String
  pub members : String → Store → List String
  pub scard : String → Store → ℕ
  pub hset : String → Dict String String → Store → Store
  pub hsetnx : String → String → String → Store → Store
  pub hdel : String → String → Store → Store
  pub sadd : String → List String → Store → Store
  pub expire : String → ℕ → Store → Store
  pub delete : List String → Store → Store
  pub scard-members : (k : String) (s : Store) → scard k s ≡ length (members k s)
  pub hgetall_absent :
      (k f : String) (s : Store) → exists k s ≡ false → Dict.lookup f (hgetall k s) ≡ none
  pub hgetall-hset :
      (k j f : String) (m : Dict String String) (s : Store)
      → Dict.lookup f (hgetall j (hset k m s)) ≡ (
          if k == j
          then over (Dict.lookup f m) (Dict.lookup f (hgetall j s))
          else Dict.lookup f (hgetall j s))
  pub members-hset :
      (k j : String) (m : Dict String String) (s : Store) → members j (hset k m s) ≡ members j s
  pub exists-hset :
      (k j : String) (m : Dict String String) (s : Store)
      → 0 < length m
      → exists j (hset k m s) ≡ (if k == j then true else exists j s)
  pub hgetall-hsetnx :
      (k j f g v : String) (s : Store)
      → Dict.lookup g (hgetall j (hsetnx k f v s)) ≡ (
          if (k == j) && (f == g)
          then over (Dict.lookup g (hgetall j s)) (some v)
          else Dict.lookup g (hgetall j s))
  pub members-hsetnx : (k j f v : String) (s : Store) → members j (hsetnx k f v s) ≡ members j s
  pub exists-hsetnx :
      (k j f v : String) (s : Store)
      → exists j (hsetnx k f v s) ≡ (if k == j then true else exists j s)
  pub hgetall-hdel :
      (k j f g : String) (s : Store)
      → Dict.lookup g (hgetall j (hdel k f s))
        ≡ (if (k == j) && (f == g) then none else Dict.lookup g (hgetall j s))
  pub hgetall-sadd :
      (k j : String) (xs : List String) (s : Store) → hgetall j (sadd k xs s) ≡ hgetall j s
  pub members-sadd :
      (k j x : String) (xs : List String) (s : Store)
      → contains x (members j (sadd k xs s))
        ≡ (contains x (members j s) || (if k == j then contains x xs else false))
  pub members-sadd_elsewhere :
      (k j : String) (xs : List String) (s : Store)
      → (k == j) ≡ false
      → members j (sadd k xs s) ≡ members j s
  -- A key of a set is no key of a hash.
  pub exists-sadd :
      (k j : String) (xs : List String) (s : Store)
      → (k == j) ≡ false
      → exists j (sadd k xs s) ≡ exists j s
  -- A time to live above 0 takes nothing away at once.
  pub hgetall-expire :
      (k j : String) (ttl : ℕ) (s : Store) → 0 < ttl → hgetall j (expire k ttl s) ≡ hgetall j s
  pub members-expire :
      (k j : String) (ttl : ℕ) (s : Store) → 0 < ttl → members j (expire k ttl s) ≡ members j s
  pub exists-expire :
      (k j : String) (ttl : ℕ) (s : Store) → 0 < ttl → exists j (expire k ttl s) ≡ exists j s
  pub hgetall-delete :
      (ks : List String) (j : String) (s : Store)
      → hgetall j (delete ks s) ≡ (if contains j ks then [] else hgetall j s)
  pub members-delete :
      (ks : List String) (j : String) (s : Store)
      → members j (delete ks s) ≡ (if contains j ks then [] else members j s)
  pub exists-delete :
      (ks : List String) (j : String) (s : Store)
      → exists j (delete ks s) ≡ (if contains j ks then false else exists j s)
