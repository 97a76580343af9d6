-- ===== src/Backend/Redis/Members.antt =====
-- The children of a result as the members of a set of bytes.
use project_mognet.Prelude.{
  ℕ, ◌≡◌, refl, ap, sym, ◌∙◌, String, Bool, true, false, ◌||◌, ◌⊎◌, List, [], ◌∷◌, arith,
  if◌then◌else◌, contains, Bool_ext, inl, inr,
}
use project_mognet.Prelude.Eq.{nat_eq, string_eq, ◌==◌, ==_refl, ==_eq}
use project_mognet.Backend.Redis.Encoding.{Codec, IsFaithful, encode_children, decode_children}

or_true : (a b : Bool) → (a || b) ≡ true → (a ≡ true) ⊎ (b ≡ true)
or_true true b e = inl refl
or_true false b e = inr e

or_true_right : (a : Bool) → (a || true) ≡ true
or_true_right true = refl
or_true_right false = refl

if_true : (b a : Bool) → (if b then a else false) ≡ true → (b ≡ true) × (a ≡ true)
if_true true a e = (refl, e)
if_true false a e = absurd (cc)

module _ (c : Codec) where
  decoded_from :
      (x : ℕ) (ms : List String)
      → contains x (decode_children c ms) ≡ true
      → (raw : String) × (contains raw ms ≡ true) × (c.from_bytes raw ≡ x)
  unfolding contains decode_children
  decoded_from x [] e = absurd (cc)
  decoded_from x (raw ∷ ms) e =
      elim (or_true (c.from_bytes raw == x) (contains x (decode_children c ms)) e) [
        | inl same ↦ (raw, ground (arith, ==_refl raw), ==_eq (c.from_bytes raw) x same)
        | inr later ↦ let (other, m, e') = decoded_from x ms later in (other, ground arith, e')
      ]

  decoded_contains :
      (raw : String) (ms : List String)
      → contains raw ms ≡ true
      → contains (c.from_bytes raw) (decode_children c ms) ≡ true
  unfolding contains decode_children
  decoded_contains raw [] e = absurd (cc)
  decoded_contains raw (other ∷ ms) e = elim (or_true (other == raw) (contains raw ms) e) [
    | inl same ↦ rw (==_eq other raw same, ==_refl (c.from_bytes raw)) refl
    | inr later ↦ ground (arith, decoded_contains raw ms later)
  ]

  encode_children_from :
      (raw : String) (ids : List ℕ)
      → contains raw (encode_children c ids) ≡ true
      → (i : ℕ) × (contains i ids ≡ true) × (c.to_bytes i ≡ raw)
  unfolding contains encode_children
  encode_children_from raw [] e = absurd (cc)
  encode_children_from raw (i ∷ ids) e =
      elim (or_true (c.to_bytes i == raw) (contains raw (encode_children c ids)) e) [
        | inl same ↦ (i, ground (arith, ==_refl i), ==_eq (c.to_bytes i) raw same)
        | inr later ↦ let (j, m, e') = encode_children_from raw ids later in (j, ground arith, e')
      ]

  encode_children-contains :
      (i : ℕ) (ids : List ℕ)
      → contains i ids ≡ true
      → contains (c.to_bytes i) (encode_children c ids) ≡ true
  unfolding contains encode_children
  encode_children-contains i [] e = absurd (cc)
  encode_children-contains i (j ∷ ids) e = elim (or_true (j == i) (contains i ids) e) [
    | inl same ↦ rw (==_eq j i same, ==_refl (c.to_bytes i)) refl
    | inr later ↦ ground (arith, encode_children-contains i ids later)
  ]

  -- Where the encoded ids were added to a set, the ids were added to what it is read as.
  pub contains-decode_children :
      IsFaithful c
      → (ids : List ℕ) (adds : Bool) (before after : List String)
      → ((raw : String)
          → contains raw after ≡ (
              contains raw before
              || (if adds then contains raw (encode_children c ids) else false)))
      → (x : ℕ)
      → contains x (decode_children c after)
        ≡ (contains x (decode_children c before) || (if adds then contains x ids else false))
  contains-decode_children faithful ids adds before after joined x =
      Bool_ext
        (λ e.
          let (raw, m, same) = decoded_from x after e in
          elim (or_true (contains raw before)
            (if adds then contains raw (encode_children c ids) else false) (sym (joined raw) ∙ m)) [
              | inl old ↦ rw (← same, decoded_contains raw before old) refl
              | inr new ↦
                  let (added, found) = if_true adds (contains raw (encode_children c ids)) new in
                  let (i, given, bytes) = encode_children_from raw ids found in
                  let id = sym (faithful.from-to_bytes i) ∙ ap c.from_bytes bytes ∙ same in
                  rw (added, ← id, given) (or_true_right (contains i (decode_children c before)))
            ])
        (λ e.
          elim (or_true (contains x (decode_children c before))
            (if adds then contains x ids else false) e) [
              | inl old ↦
                  let (raw, m, same) = decoded_from x before old in
                  let stays : contains raw after ≡ true = rw (joined raw, m) refl in
                  rw (← same) (decoded_contains raw after stays)
              | inr new ↦
                  let (added, given) = if_true adds (contains x ids) new in
                  let raw = c.to_bytes x in
                  let arrives : contains raw after ≡ true =
                    rw (joined raw, added, encode_children-contains x ids given)
                      (or_true_right (contains raw before)) in
                  ap (λ i. contains i (decode_children c after)) (sym (faithful.from-to_bytes x))
                  ∙ decoded_contains raw after arrives
            ])
