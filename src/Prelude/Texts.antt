-- ===== src/Prelude/Texts.antt =====
-- Lengths of texts in characters, slashes, and when two joined texts are the same.
use Prim.Native.Nat.{ℕ, suc}
use Prim.Native.Char.{Char}
use Prim.Native.String.append
use Prim.Native.String.{String, ◌++◌ as ◌⧺◌}
use mathlib.Core.Path.{◌≡◌, refl, ap, sym, ◌∙◌}
use mathlib.Core.Bool.{Bool, true, false, ◌||◌}
use native.Mathlib.Omega.{arith}
use project_mognet.Prelude.Eq.{string_eq, ◌==◌}

-- `len(s)`
unfoldable pub len : String → ℕ
len String.[] = 0
len (String.◌∷◌ c s) = suc (len s)

nil_append : (t : String) → ◌⧺◌ "" t ≡ t
nil_append t = append.nil t

cons_append : (a : Char) (s t : String) → ◌⧺◌ (String.◌∷◌ a s) t ≡ String.◌∷◌ a (◌⧺◌ s t)
cons_append a s t = append.cons a s t

pub append_cancel : (p s t : String) → ◌⧺◌ p s ≡ ◌⧺◌ p t → s ≡ t
append_cancel String.[] s t e = sym (nil_append s) ∙ e ∙ nil_append t
append_cancel (String.◌∷◌ a p) s t e =
    let moved = sym (cons_append a p s) ∙ e ∙ cons_append a p t in append_cancel p s t (cc)

unfoldable pub is_slash : Char → Bool
is_slash a = String.◌∷◌ a "" == "/"

unfoldable pub has_slash : String → Bool
has_slash String.[] = false
has_slash (String.◌∷◌ a s) = is_slash a || has_slash s

-- Whether a text is empty or begins with a slash.
unfoldable pub is_suffix : String → Bool
is_suffix String.[] = true
is_suffix (String.◌∷◌ a s) = is_slash a

pub is_suffix-slash : (s : String) → is_suffix (◌⧺◌ "/" s) ≡ true
unfolding is_suffix is_slash
is_suffix-slash s = ap is_suffix (cons_append _ "" s)

slash_apart :
    (b : Char) (q s t : String)
    → has_slash (String.◌∷◌ b q) ≡ false
    → is_suffix s ≡ true
    → ¬ (s ≡ ◌⧺◌ (String.◌∷◌ b q) t)
unfolding has_slash is_suffix
slash_apart b q s t none_there starts e =
    let heads : is_suffix s ≡ is_slash b = ap is_suffix (e ∙ cons_append b q t) in ground arith

-- Texts without a slash, each before a suffix: they can be told from the joined text.
pub append_split :
    (p q s t : String)
    → has_slash p ≡ false
    → has_slash q ≡ false
    → is_suffix s ≡ true
    → is_suffix t ≡ true
    → ◌⧺◌ p s ≡ ◌⧺◌ q t
    → (p ≡ q) × (s ≡ t)
unfolding has_slash
append_split String.[] String.[] s t fp fq ss st e = (refl, sym (nil_append s) ∙ e ∙ nil_append t)
append_split String.[] (String.◌∷◌ b q) s t fp fq ss st e =
    absurd (slash_apart b q s t fq ss (sym (nil_append s) ∙ e))
append_split (String.◌∷◌ a p) String.[] s t fp fq ss st e =
    absurd (slash_apart a p t s fp st (sym (nil_append t) ∙ sym e))
append_split (String.◌∷◌ a p) (String.◌∷◌ b q) s t fp fq ss st e =
    let moved = sym (cons_append a p s) ∙ e ∙ cons_append b q t in
    let (same, rest) = append_split p q s t (ground arith) (ground arith) ss st (cc) in (cc, rest)

pub append_nil : (p : String) → ◌⧺◌ p "" ≡ p
append_nil String.[] = nil_append ""
append_nil (String.◌∷◌ a p) = cons_append a p "" ∙ ap (λ t. String.◌∷◌ a t) (append_nil p)

pub append_assoc : (p q r : String) → ◌⧺◌ (◌⧺◌ p q) r ≡ ◌⧺◌ p (◌⧺◌ q r)
append_assoc String.[] q r = ap (λ t. ◌⧺◌ t r) (nil_append q) ∙ sym (nil_append (◌⧺◌ q r))
append_assoc (String.◌∷◌ a p) q r =
    ap (λ t. ◌⧺◌ t r) (cons_append a p q)
    ∙ cons_append a (◌⧺◌ p q) r
    ∙ ap (λ t. String.◌∷◌ a t) (append_assoc p q r)
    ∙ sym (cons_append a p (◌⧺◌ q r))
