-- ===== src/Backend/Redis/Views/Parts.antt =====
-- Where one part of a result is written, the other parts and the other results are kept.
use project_mognet.Prelude.{
  length, ℕ, ◌<◌, ◌≡◌, refl, ap, ◌∙◌, String, Bool, true, false, ◌&&◌, Option,
}
use project_mognet.Redis.{Redis, over}
use project_mognet.Prelude.Dict
use project_mognet.Prelude.Dict.{Dict}
use project_mognet.Prelude.Eq.{nat_eq, string_eq, ◌==◌, ==_refl}
use project_mognet.Backend.Redis.Encoding.{Codec, IsFaithful}
use project_mognet.Backend.Redis.Keys.{suffix, format_key_same}
use project_mognet.Backend.Redis.{Settings, format_key}
use project_mognet.Backend.Redis.Views.Writes.{
  Same, write, IsPositive, Same-write, exists-write, hgetall-write,
}

and_false : (b : Bool) → (b && false) ≡ false
and_false true = refl
and_false false = refl

and_true_right : (b : Bool) → (b && true) ≡ b
and_true_right true = refl
and_true_right false = refl

module _ (c : Codec) (faithful : IsFaithful c) (settings : Settings) (redis : Redis) where
  open redis use {Store, exists, hgetall, members, hset, sadd, expire}

  -- Keys of different parts of results, and of the same part.
  pub apart :
      (i j : ℕ) (sub part : Option String)
      → (suffix sub == suffix part) ≡ false
      → (format_key c settings i sub == format_key c settings j part) ≡ false
  apart i j sub part e =
      format_key_same c faithful settings i j sub part
      ∙ ap (λ b. (i == j) && b) e
      ∙ and_false (i == j)

  pub alike :
      (i j : ℕ) (sub : Option String)
      → (format_key c settings i sub == format_key c settings j sub) ≡ (i == j)
  alike i j sub =
      format_key_same c faithful settings i j sub sub
      ∙ ap (λ b. (i == j) && b) (==_refl (suffix sub))
      ∙ and_true_right (i == j)

  -- A part of the result `id` is written: what is read of the parts of any result `j`.
  module _ (ttl : Option ℕ) (positive : IsPositive c settings redis ttl) (id : ℕ)
      (sub : Option String) (m : Dict String String) (filled : 0 < length m) (s : Store)
      (j : ℕ) where
    abbrev pub written : Store
    written = write c settings redis ttl (format_key c settings id sub) m s

    pub keeps_part :
        (part : Option String)
        → (suffix sub == suffix part) ≡ false
        → Same c settings redis (format_key c settings j part) s written
    keeps_part part e =
        Same-write c settings redis ttl positive (format_key c settings id sub)
          (format_key c settings j part) s m filled (apart id j sub part e)

    pub keeps_other :
        (id == j) ≡ false → Same c settings redis (format_key c settings j sub) s written
    keeps_other other =
        Same-write c settings redis ttl positive (format_key c settings id sub)
          (format_key c settings j sub) s m filled (alike id j sub ∙ other)

    pub is_there : (id == j) ≡ true → exists (format_key c settings j sub) written ≡ true
    is_there same =
        exists-write c settings redis ttl positive (format_key c settings id sub)
          (format_key c settings j sub) s m filled (alike id j sub ∙ same)

    pub reads :
        (id == j) ≡ true
        → (g : String)
        → Dict.lookup g (hgetall (format_key c settings j sub) written)
          ≡ over (Dict.lookup g m) (Dict.lookup g (hgetall (format_key c settings j sub) s))
    reads same =
        hgetall-write c settings redis ttl positive (format_key c settings id sub)
          (format_key c settings j sub) s m filled (alike id j sub ∙ same)
