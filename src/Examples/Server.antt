-- ===== src/Examples/Server.antt =====
-- A server that keeps its hashes and sets as functions of the key, as an instance of the interface.
use project_mognet.Prelude.{
  ◌≡◌, refl, String, Bool, true, false, none, some, List, [], ◌∷◌, arith, length, if◌then◌else◌,
  contains, update, contains-update, is_some,
}
use project_mognet.Prelude.Dict
use project_mognet.Prelude.Dict.{Dict}
use project_mognet.Prelude.Eq.{nat_eq, string_eq, ◌==◌}
use project_mognet.Redis.{Redis, over}

pub record Store : Type 0 where
  pub there : String → Bool
  pub hash : String → Dict String String
  pub set : String → List String

abbrev pub nothing_stored : Store
nothing_stored = record { there = λ k. false; hash = λ k. []; set = λ k. [] }

abbrev pub hgetall : String → Store → Dict String String
hgetall k s = if s.there k then s.hash k else []

abbrev pub written : Dict String String → Dict String String → Dict String String
written [] h = h
written ((f, v) ∷ m) h = Dict.insert f v (written m h)

pub lookup-written :
    (g : String) (m h : Dict String String)
    → Dict.lookup g (written m h) ≡ over (Dict.lookup g m) (Dict.lookup g h)
unfolding Dict.lookup
lookup-written g [] h = refl
lookup-written g ((f, v) ∷ m) h =
    ground (arith, lookup-written g m h, Dict.lookup-insert f g v (written m h))

abbrev pub put : String → Dict String String → Store → Store
put k h s = record s {
  there = λ j. if k == j then true else s.there j;
  hash = λ j. if k == j then h else hgetall j s;
}

pub hgetall-put :
    (k j : String) (h : Dict String String) (s : Store)
    → hgetall j (put k h s) ≡ (if k == j then h else hgetall j s)
hgetall-put k j h s = ground arith

-- A field that is there already is left as it is.
abbrev pub claimed : String → String → Dict String String → Dict String String
claimed f v h = if is_some (Dict.lookup f h) then h else Dict.insert f v h

pub lookup-claimed :
    (f g v : String) (h : Dict String String)
    → Dict.lookup g (claimed f v h)
      ≡ (if f == g then over (Dict.lookup g h) (some v) else Dict.lookup g h)
lookup-claimed f g v h =
    unfold Dict.lookup in ground (arith, Dict.lookup-insert f g v h, string_eq.beq_iff f g)

pub absent_fields :
    (k f : String) (s : Store) → s.there k ≡ false → Dict.lookup f (hgetall k s) ≡ none
unfolding Dict.lookup
absent_fields k f s e = ground arith

abbrev pub server : Redis
server = record {
  Store = Store;
  exists = λ k s. s.there k;
  hgetall = hgetall;
  members = λ k s. s.set k;
  scard = λ k s. length (s.set k);
  hset = λ k m s. put k (written m (hgetall k s)) s;
  hsetnx = λ k f v s. put k (claimed f v (hgetall k s)) s;
  hdel = λ k f s. put k (Dict.remove f (hgetall k s)) s;
  sadd = λ k xs s. record s { set = λ j. if k == j then update (s.set j) xs else s.set j };
  expire = λ k ttl s. s;
  delete = λ ks s. record s {
    there = λ j. if contains j ks then false else s.there j;
    set = λ j. if contains j ks then [] else s.set j;
  };
  scard-members = λ k s. refl;
  hgetall_absent = λ k f s e. absent_fields k f s e;
  hgetall-hset = λ k j f m s. ground (
    arith,
    hgetall-put k j (written m (hgetall k s)) s,
    lookup-written f m (hgetall k s),
    string_eq.beq_iff k j,
  );
  members-hset = λ k j m s. refl;
  exists-hset = λ k j m s h. refl;
  hgetall-hsetnx = λ k j f g v s. ground (
    arith,
    hgetall-put k j (claimed f v (hgetall k s)) s,
    lookup-claimed f g v (hgetall k s),
    string_eq.beq_iff k j,
  );
  members-hsetnx = λ k j f v s. refl;
  exists-hsetnx = λ k j f v s. refl;
  hgetall-hdel = λ k j f g s. ground (
    arith,
    hgetall-put k j (Dict.remove f (hgetall k s)) s,
    Dict.lookup-remove f g (hgetall k s),
    string_eq.beq_iff k j,
  );
  hgetall-sadd = λ k j xs s. refl;
  members-sadd = λ k j x xs s. ground (arith, contains-update x (s.set j) xs);
  members-sadd_elsewhere = λ k j xs s e. ground arith;
  exists-sadd = λ k j xs s e. refl;
  hgetall-expire = λ k j ttl s h. refl;
  members-expire = λ k j ttl s h. refl;
  exists-expire = λ k j ttl s h. refl;
  hgetall-delete = λ ks j s. ground arith;
  members-delete = λ ks j s. refl;
  exists-delete = λ ks j s. refl;
}
