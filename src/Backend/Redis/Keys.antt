-- ===== src/Backend/Redis/Keys.antt =====
-- The keys of the backend: different ids and different parts of a result never share one.
use Prim.Native.String.{◌++◌ as ◌⧺◌}
use project_mognet.Prelude.{
  true, ◌≡◌, refl, ap, sym, ◌∙◌, ℕ, String, ◌&&◌, Option, none, some, arith, Bool_ext, if_ind,
  and_true, if◌then◌else◌,
}
use project_mognet.Prelude.Eq.{string_eq, nat_eq, ◌==◌, ==_refl, ==_eq}
use project_mognet.Prelude.Texts.{
  append_cancel, append_split, is_suffix, is_suffix-slash, append_nil, append_assoc,
}
use project_mognet.Backend.Redis.Encoding.{Codec, IsFaithful, text}
use project_mognet.Backend.Redis.{Settings, with_subkey, format_key}

some_injective : {A : Type 0} {a b : A} → some a ≡ some b → a ≡ b
some_injective e = cc

-- What `subkey` adds to a key.
abbrev pub suffix : Option String → String
suffix none = ""
suffix (some subkey) = if subkey == "" then "" else ◌⧺◌ "/" subkey

suffix_lem : (sub : Option String) → is_suffix (suffix sub) ≡ true
unfolding is_suffix
suffix_lem none = refl
suffix_lem (some subkey) =
    if_ind (λ t. is_suffix t ≡ true) (subkey == "") refl (is_suffix-slash subkey)

with_subkey_lem :
    (c : Codec) (settings : Settings) (key : String) (sub : Option String)
    → with_subkey c settings key sub ≡ ◌⧺◌ key (suffix sub)
unfolding with_subkey
with_subkey_lem c settings key none = sym (append_nil key)
with_subkey_lem c settings key (some subkey) = ground (arith, append_nil key)

module _ (c : Codec) (faithful : IsFaithful c) (settings : Settings) where
  show_id_injective : (i j : ℕ) → c.show_id i ≡ c.show_id j → i ≡ j
  show_id_injective i j e = some_injective (
      sym (faithful.valid_id-show_id i)
      ∙ ap (λ t. c.valid_id (text t)) e
      ∙ faithful.valid_id-show_id j)

  key_parts :
      (i : ℕ) (sub : Option String)
      → format_key c settings i sub
        ≡ ◌⧺◌ settings.app_name (◌⧺◌ ".mognet.result." (◌⧺◌ (c.show_id i) (suffix sub)))
  unfolding format_key
  key_parts i sub =
      let name = settings.app_name in
      let id = c.show_id i in
      with_subkey_lem c settings (◌⧺◌ name (◌⧺◌ ".mognet.result." id)) sub
      ∙ append_assoc name (◌⧺◌ ".mognet.result." id) (suffix sub)
      ∙ ap (λ t. ◌⧺◌ name t) (append_assoc ".mognet.result." id (suffix sub))

  -- Two keys are the same just if they are for the same id and the same part of its result.
  pub format_key_injective :
      (i j : ℕ) (sub part : Option String)
      → format_key c settings i sub ≡ format_key c settings j part
      → (i ≡ j) × (suffix sub ≡ suffix part)
  unfolding format_key
  format_key_injective i j sub part e =
      let moved = sym (key_parts i sub) ∙ e ∙ key_parts j part in
      let ids_on =
        append_cancel ".mognet.result." (◌⧺◌ (c.show_id i) (suffix sub))
          (◌⧺◌ (c.show_id j) (suffix part))
          (append_cancel settings.app_name (◌⧺◌ ".mognet.result." (◌⧺◌ (c.show_id i) (suffix sub)))
            (◌⧺◌ ".mognet.result." (◌⧺◌ (c.show_id j) (suffix part))) moved) in
      let (same, rest) =
        append_split (c.show_id i) (c.show_id j) (suffix sub) (suffix part)
          (faithful.show_id_plain i) (faithful.show_id_plain j) (suffix_lem sub) (suffix_lem part)
          ids_on in
      (show_id_injective i j same, rest)

  pub format_key_same :
      (i j : ℕ) (sub part : Option String)
      → (format_key c settings i sub == format_key c settings j part)
        ≡ ((i == j) && (suffix sub == suffix part))
  format_key_same i j sub part =
      Bool_ext
        (λ h.
          let (same, rest) =
            format_key_injective i j sub part
              (==_eq (format_key c settings i sub) (format_key c settings j part) h) in
          rw (same, rest, ==_refl j, ==_refl (suffix part)) refl)
        (λ h.
          let (same, rest) = and_true (i == j) (suffix sub == suffix part) h in
          rw
            (
              key_parts i sub,
              key_parts j part,
              ==_eq i j same,
              ==_eq (suffix sub) (suffix part) rest,
            )
            (==_refl
              (◌⧺◌ settings.app_name (◌⧺◌ ".mognet.result." (◌⧺◌ (c.show_id j) (suffix part))))))
