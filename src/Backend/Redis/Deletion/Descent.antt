-- ===== src/Backend/Redis/Deletion/Descent.antt =====
-- `delete` of the Redis backend with its recursion over the children.
use project_mognet.Prelude.{
  ℕ, zero, suc, ◌<◌, ◌≡◌, refl, ◌∙◌, true, false, ◌⊎◌, inl, inr, Option, none, some, List, [], ◌∷◌,
  arith, contains, Bool-cases,
}
use project_mognet.Redis.{Redis}
use project_mognet.Prelude.Eq.{nat_eq, ◌==◌, ==_eq, ==_refl}
use project_mognet.Model.Value.{result_value_lost}
use project_mognet.Backend.Memory.{ok, raised}
use project_mognet.Backend.Memory.Deletion.{Below, here, down}
use project_mognet.Backend.Redis.Encoding.{Codec, IsFaithful}
use project_mognet.Backend.Redis.{
  Settings, get, get_value, iterate_children_ids, get_metadata, forget, delete, each_child,
}
use project_mognet.Backend.Redis.Deletion.{
  get-left, get_value-left, iterate_children_ids-left, get_metadata-left,
}

-- Going down from a descendant.
Below-step : {ch : ℕ → List ℕ} (k j i : ℕ) → contains k (ch j) ≡ true → Below ch j i → Below ch k i
Below-step k j _ m here = down j k m here
Below-step k j i m (down _ c m' h) = down i c m' (Below-step k j c m h)

module _ (c : Codec) (faithful : IsFaithful c) (settings : Settings) (redis : Redis) where
  open redis use {Store}

  -- Nothing is read of an id, and the same is read of it as before.
  abbrev pub IsGone : ℕ → Store → Type 0
  IsGone j t =
      (get c settings redis j t ≡ ok none)
      × (get_value c settings redis j t ≡ raised (result_value_lost j))
      × (iterate_children_ids c settings redis j t ≡ [])
      × (get_metadata c settings redis j t ≡ [])

  abbrev pub IsKept : ℕ → Store → Store → Type 0
  IsKept j s t =
      (get c settings redis j t ≡ get c settings redis j s)
      × (get_value c settings redis j t ≡ get_value c settings redis j s)
      × (iterate_children_ids c settings redis j t ≡ iterate_children_ids c settings redis j s)
      × (get_metadata c settings redis j t ≡ get_metadata c settings redis j s)

  IsGone-forget : (id : ℕ) (t : Store) → IsGone id (forget c settings redis id t)
  IsGone-forget id t = (
    get-left c faithful settings redis id t id ∙ rw (==_refl id) refl,
    get_value-left c faithful settings redis id t id ∙ rw (==_refl id) refl,
    iterate_children_ids-left c faithful settings redis id t id ∙ rw (==_refl id) refl,
    get_metadata-left c faithful settings redis id t id ∙ rw (==_refl id) refl,
  )

  IsKept-forget :
      (id j : ℕ) (t : Store) → (id == j) ≡ false → IsKept j t (forget c settings redis id t)
  IsKept-forget id j t other = (
    get-left c faithful settings redis id t j ∙ rw (other) refl,
    get_value-left c faithful settings redis id t j ∙ rw (other) refl,
    iterate_children_ids-left c faithful settings redis id t j ∙ rw (other) refl,
    get_metadata-left c faithful settings redis id t j ∙ rw (other) refl,
  )

  IsGone-onward : (j : ℕ) (t u : Store) → IsGone j t → IsKept j t u → IsGone j u
  IsGone-onward j t u (a, b, d, e) (f, g, h, k) = (f ∙ a, g ∙ b, h ∙ d, k ∙ e)

  IsKept-trans : (j : ℕ) (s t u : Store) → IsKept j s t → IsKept j t u → IsKept j s u
  IsKept-trans j s t u (a, b, d, e) (f, g, h, k) = (f ∙ a, g ∙ b, h ∙ d, k ∙ e)

  module _ (s : Store) where
    abbrev pub ch : ℕ → List ℕ
    ch i = iterate_children_ids c settings redis i s

    -- The server behind the deletion of everything in `Gone`, which has all that is below its members.
    record Removed (Gone : ℕ → Type 0) (t : Store) : Type 0 where
      closed : (i k : ℕ) → Gone i → contains k (ch i) ≡ true → Gone k
      gone : (j : ℕ) → Gone j → IsGone j t
      kept : (j : ℕ) → Gone j ⊎ IsKept j s t

    Removed_below :
        {Gone : ℕ → Type 0} {t : Store}
        → Removed Gone t
        → (j i : ℕ) → Gone i
        → Below ch j i
        → Gone j
    Removed_below h j _ g here = g
    Removed_below h j i g (down _ k m below) = Removed_below h j k (h.closed i k g m) below

    -- The other names of what is gone.
    Removed-renamed :
        {G : ℕ → Type 0} (H : ℕ → Type 0) {t : Store}
        → ((j : ℕ) → G j → H j)
        → ((j : ℕ) → H j → G j)
        → Removed G t
        → Removed H t
    Removed-renamed H to from h = record {
      closed = λ i k g m. to k (h.closed i k (from i g) m);
      gone = λ j g. h.gone j (from j g);
      kept = λ j. elim (h.kept j) [ inl g ↦ inl (to j g) | inr same ↦ inr same ];
    }

    -- The id itself, where all that is below it is gone.
    Removed-forget :
        {G : ℕ → Type 0} (id : ℕ) (t : Store)
        → ((k : ℕ) → contains k (ch id) ≡ true → G k)
        → Removed G t
        → Removed (λ j. G j ⊎ (id ≡ j)) (forget c settings redis id t)
    Removed-forget id t children h = record {
      closed = λ i k g m. elim g [
        | inl old ↦ inl (h.closed i k old m)
        | inr same ↦ inl (children k (rw (same) m))
      ];
      gone = λ j g. elim (Bool-cases (id == j)) [
        | inl same ↦ rw (← ==_eq id j same) (IsGone-forget id t)
        | inr other ↦ elim g [
          | inl old ↦
              IsGone-onward j t (forget c settings redis id t) (h.gone j old)
                (IsKept-forget id j t other)
          | inr same ↦ rw (← same) (IsGone-forget id t)
        ]
      ];
      kept = λ j. elim (Bool-cases (id == j)) [
        | inl same ↦ inl (inr (==_eq id j same))
        | inr other ↦ elim (h.kept j) [
          | inl old ↦ inl (inl old)
          | inr same ↦
              inr (
                IsKept-trans j s t (forget c settings redis id t) same (IsKept-forget id j t other))
        ]
      ];
    }

    abbrev BelowAny : List ℕ → ℕ → Type 0
    BelowAny ids j = (k : ℕ) × (contains k ids ≡ true) × Below ch j k

    abbrev Works : (ℕ → Store → Option Store) → ℕ → Type 1
    Works act k =
        (G : ℕ → Type 0) (t : Store)
        → Removed G t
        → (u : Store) × (act k t ≡ some u) × Removed (λ j. G j ⊎ Below ch j k) u

    Below-cons :
        (G : ℕ → Type 0) (k : ℕ) (ids : List ℕ) (j : ℕ)
        → (G j ⊎ Below ch j k) ⊎ BelowAny ids j
        → G j ⊎ BelowAny (k ∷ ids) j
    unfolding contains
    Below-cons G k ids j (inl (inl old)) = inl old
    Below-cons G k ids j (inl (inr below)) = inr (k, ground (arith, ==_refl k), below)
    Below-cons G k ids j (inr (i, m, below)) = inr (i, ground arith, below)

    Below-split :
        (G : ℕ → Type 0) (k : ℕ) (ids : List ℕ) (j : ℕ)
        → G j ⊎ BelowAny (k ∷ ids) j
        → (G j ⊎ Below ch j k) ⊎ BelowAny ids j
    unfolding contains
    Below-split G k ids j (inl old) = inl (inl old)
    Below-split G k ids j (inr (i, m, below)) = elim (Bool-cases (k == i)) [
      | inl same ↦ inl (inr (rw (==_eq k i same) below))
      | inr other ↦ inr (i, ground arith, below)
    ]

    each_child-Works :
        (act : ℕ → Store → Option Store) (ids : List ℕ)
        → ((k : ℕ) → contains k ids ≡ true → Works act k)
        → (G : ℕ → Type 0) (t : Store) → Removed G t
        → (u : Store) × (each_child c settings redis act ids t ≡ some u)
          × Removed (λ j. G j ⊎ BelowAny ids j) u
    unfolding each_child contains
    each_child-Works act [] works G t h = (
      t,
      refl,
      Removed-renamed (λ j. G j ⊎ BelowAny [] j) (λ j g. inl g)
          (λ j g. elim g [ inl old ↦ old | inr (k, m, below) ↦ absurd (cc) ]) h,
    )
    each_child-Works act (k ∷ ids) works G t h =
        let (u, run, f) = works k (ground (arith, ==_refl k)) G t h in
        let (v, run', g) =
          each_child-Works act ids (λ i m. works i (ground arith)) (λ j. G j ⊎ Below ch j k) u f in
        (
          v,
          rw (run, each_child) run',
          Removed-renamed (λ j. G j ⊎ BelowAny (k ∷ ids) j) (Below-cons G k ids)
              (Below-split G k ids) g,
        )

    Below-join :
        (G : ℕ → Type 0) (id j : ℕ) → (G j ⊎ BelowAny (ch id) j) ⊎ (id ≡ j) → G j ⊎ Below ch j id
    Below-join G id j (inl (inl old)) = inl old
    Below-join G id j (inl (inr (k, m, below))) = inr (down id k m below)
    Below-join G id j (inr same) = inr (rw (same) here)

    Below-unjoin :
        (G : ℕ → Type 0) (id j : ℕ) → G j ⊎ Below ch j id → (G j ⊎ BelowAny (ch id) j) ⊎ (id ≡ j)
    Below-unjoin G id j (inl old) = inl (inl old)
    Below-unjoin G id j (inr here) = inr refl
    Below-unjoin G id j (inr (down _ k m below)) = inl (inr (k, m, below))

    module _ (rank : ℕ → ℕ) (acyclic : (i k : ℕ) → contains k (ch i) ≡ true → rank k < rank i) where
      delete-Works : (fuel id : ℕ) → rank id < fuel → Works (delete c settings redis fuel true) id
      unfolding delete each_child
      delete-Works zero id enough G t h = absurd (omega arith)
      delete-Works (suc fuel) id enough G t h = elim (h.kept id) [
        | inl g ↦
            let childless = (h.gone id g).2 in
            (
              forget c settings redis id t,
              rw (delete, childless) refl,
              Removed-renamed (λ j. G j ⊎ Below ch j id)
                  (λ j r. elim r [ inl old ↦ inl old | inr same ↦ inr (rw (same) here) ])
                  (λ j r. elim r [
                    | inl old ↦ inl old
                    | inr below ↦ inl (Removed_below h j id g below)
                  ])
                  (Removed-forget id t (λ k m. h.closed id k g m) h),
            )
        | inr same ↦
            let (u, run, f) =
              each_child-Works (delete c settings redis fuel true) (ch id)
                (λ k m. delete-Works fuel k (omega (arith, acyclic id k m))) G t h in
            (
              forget c settings redis id u,
              rw (delete, same.2, run) refl,
              Removed-renamed (λ j. G j ⊎ Below ch j id) (Below-join G id) (Below-unjoin G id)
                  (Removed-forget id u (λ k m. inr (k, m, here)) f),
            )
      ]

      descends :
          (fuel id : ℕ)
          → rank id < fuel
          → (t : Store) × (delete c settings redis fuel true id s ≡ some t)
            × Removed (λ j. ⊥ ⊎ Below ch j id) t
      descends fuel id enough =
          delete-Works fuel id enough (λ j. ⊥) s
            (record {
              closed = λ i k g m. g;
              gone = λ j g. absurd g;
              kept = λ j. inr (refl, refl, refl, refl);
            })

      -- Deleting a result with its children, where no result is below itself, ends with fuel above
      -- the rank of the result, and nothing is read then of it and of each that is below it. The
      -- server and the libraries keep to their documentation.
      pub delete_descends :
          (fuel id j : ℕ)
          → rank id < fuel
          → Below ch j id
          → (t : Store) × (delete c settings redis fuel true id s ≡ some t) × IsGone j t
      delete_descends fuel id j enough below =
          let (t, run, h) = descends fuel id enough in (t, run, h.gone j (inr below))

      -- What is not below the result is read as before.
      delete_spares :
          (fuel id j : ℕ)
          → rank id < fuel
          → ¬ Below ch j id
          → (t : Store) × (delete c settings redis fuel true id s ≡ some t) × IsKept j s t
      delete_spares fuel id j enough apart =
          let (t, run, h) = descends fuel id enough in
          (
            t,
            run,
            elim (h.kept j) [
              | inl g ↦ elim g [ inl never ↦ absurd never | inr below ↦ absurd (apart below) ]
              | inr same ↦ same
            ],
          )
