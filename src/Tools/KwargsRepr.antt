-- ===== src/Tools/KwargsRepr.antt =====
-- mognet/tools/kwargs_repr.py: the text that represents a request's arguments. `repr` is Python's.
use Prim.Native.String.append
use Prim.Native.String.{◌++◌ as ◌⧺◌}
use project_mognet.Prelude.{
  ℕ, zero, suc, ◌+◌, ◌≤◌, ◌<◌, String, ◌≡◌, refl, ap, ◌&&◌, ltb, Option, none, some, List, [], ◌∷◌,
  arith, if◌then◌else◌, Bool-cases, inl, inr,
}
use project_mognet.Prelude.Texts.{len}
use project_mognet.Prelude.Dict.{Dict}
use project_mognet.Model.Value.{Value}

-- `s[0:n]`, in characters.
unfoldable pub cut : ℕ → String → String
cut zero s = ""
cut (suc n) String.[] = ""
cut (suc n) (String.◌∷◌ c s) = String.◌∷◌ c (cut n s)

-- A limit of `None` or 0 is no limit.
unfoldable pub format_text : Option ℕ → String → String
unfolding len cut
format_text none s = s
format_text (some n) s = if ltb 0 n && ltb n (len s) then ◌⧺◌ (cut n s) "..." else s

-- `", ".join(parts)`
unfoldable pub join : List String → String
join [] = ""
join (p ∷ []) = p
join (p ∷ q ∷ rest) = ◌⧺◌ p (◌⧺◌ ", " (join (q ∷ rest)))

module _ (repr : Value → String) where
  format_value : Option ℕ → Value → String
  unfolding format_text
  format_value limit v = format_text limit (repr v)

  format_args : Option ℕ → List Value → List String
  format_args limit [] = []
  format_args limit (v ∷ vs) = format_value limit v ∷ format_args limit vs

  format_named : Option ℕ → Dict String Value → List String
  format_named limit [] = []
  format_named limit ((k, v) ∷ m) = ◌⧺◌ k (◌⧺◌ "=" (format_value limit v)) ∷ format_named limit m

  append_parts : List String → List String → List String
  append_parts [] qs = qs
  append_parts (p ∷ ps) qs = p ∷ append_parts ps qs

  unfoldable pub format_kwargs_repr : Option ℕ → List Value → Dict String Value → String
  unfolding format_value format_args format_named append_parts join
  format_kwargs_repr limit args kwargs =
      join (append_parts (format_args limit args) (format_named limit kwargs))

len-append : (s t : String) → len (◌⧺◌ s t) ≡ len s + len t
unfolding len
len-append String.[] t = rw append.nil (omega arith)
len-append (String.◌∷◌ c s) t = rw append.cons (omega (arith, len-append s t))

len-cut : (n : ℕ) (s : String) → len (cut n s) ≤ n
unfolding len cut
len-cut zero s = omega arith
len-cut (suc n) String.[] = omega arith
len-cut (suc n) (String.◌∷◌ c s) = omega (arith, len-cut n s)

len-dots : len "..." ≡ 3
unfolding len
len-dots = refl

cut-cut : (n : ℕ) (s t : String) → n ≤ len s → cut n (◌⧺◌ (cut n s) t) ≡ cut n s
unfolding len cut
cut-cut zero s t h = refl
cut-cut (suc n) String.[] t h = absurd (omega arith)
cut-cut (suc n) (String.◌∷◌ c s) t h =
    rw append.cons (ap (λ r. String.◌∷◌ c r) (cut-cut n s t (omega arith)))

cut-format_text : (n : ℕ) (s : String) → cut n (format_text (some n) s) ≡ cut n s
unfolding format_text
cut-format_text n s = elim (Bool-cases (ltb 0 n && ltb n (len s))) [
  | inl long ↦ rw long (cut-cut n s "..." (ground (arith, long)))
  | inr short ↦ rw short refl
]

-- Under a limit above 0, a value's text keeps its first `n` characters and is at most three longer
-- than the limit; a text within the limit is kept whole, and so is any text under the limit 0.
pub format_text_bounds :
    (n : ℕ) (s t : String)
    → 0 < n
    → len t ≤ n
    → (cut n (format_text (some n) s) ≡ cut n s)
      × (len (format_text (some n) s) ≤ n + 3)
      × (format_text (some n) t ≡ t)
      × (format_text (some 0) s ≡ s)
unfolding format_text
format_text_bounds n s t h l = (
  cut-format_text n s,
  ground (arith, len-append (cut n s) "...", len-cut n s, len-dots),
  ground arith,
  refl,
)
