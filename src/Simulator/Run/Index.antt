-- ===== src/Simulator/Run/Index.antt =====
-- The maps that a simulation builds over the services, when every service has its own id, as the
-- primary key of its table gives it.
use cert_rollover_impact_ass.Prelude.{
  ℕ, ◌≡◌, ◌⊎◌, refl, sym, ◌∙◌, true, some, List, [], ◌∷◌, map, Memᴰ, Memᴰ-cons, Memᴰ-here,
  Memᴰ-there, not-Memᴰ-nil, Map, insert, index_from, lookup, arith, Bool-cases, inl, inr, ⊎_elim,
  subst, ap,
}
use native.Mathlib.Decide.{ℕ_discrete}
use cert_rollover_impact_ass.Prelude.Sorting.Laws.{Distinct}
use cert_rollover_impact_ass.Simulator.Snapshot.{ServiceSnapshot}
use cert_rollover_impact_ass.Simulator.Snapshot.Validate.{service_ids}
use cert_rollover_impact_ass.Simulator.Direct.{ServiceEvidence}
use cert_rollover_impact_ass.Simulator.Run.{is_active, direct_from}

pub mem-map {ℓ} : {A : Type ℓ} (f : A → ℕ) (x : A) (xs : List A) → Memᴰ x xs → Memᴰ (f x) (map f xs)
mem-map f x [] m = absurd (not-Memᴰ-nil m)
mem-map f x (y ∷ xs) m =
    (Memᴰ-cons (f x) (f y) (map f xs)).1
      (⊎_elim (λ e. inl (ap f e)) (λ t. inr (mem-map f x xs t)) ((Memᴰ-cons x y xs).0 m))

module _ {ℓ κ} {A : Type ℓ} {V : Type κ} (key : A → ℕ) (value : A → V) where
  index_from_keep :
      (m : Map V) (xs : List A) (k : ℕ)
      → ¬ Memᴰ k (map key xs)
      → lookup k (index_from key value m xs) ≡ lookup k m
  index_from_keep m [] k h = refl
  index_from_keep m (x ∷ xs) k h =
      let apart : ¬ (k ≡ key x) = λ e. h ((Memᴰ-cons k (key x) (map key xs)).1 (inl e)) in
      index_from_keep (insert (key x) (value x) m) xs k (λ t. h (Memᴰ-there (key x) t))
      ∙ ground arith

  pub index_from_find :
      (m : Map V) (xs : List A) (x : A)
      → Distinct (map key xs)
      → Memᴰ x xs
      → lookup (key x) (index_from key value m xs) ≡ some (value x)
  index_from_find m [] x d t = absurd (not-Memᴰ-nil t)
  index_from_find m (y ∷ xs) x d t =
      ⊎_elim
        (λ e. rw e (index_from_keep (insert (key y) (value y) m) xs (key y) d.0 ∙ ground arith))
        (index_from_find (insert (key y) (value y) m) xs x d.1) ((Memᴰ-cons x y xs).0 t)

module _ (evaluate : ServiceSnapshot → ServiceEvidence) where
  -- Evidence comes from an active service of that id.
  pub direct_from_origin :
      (m : Map ServiceEvidence) (services : List ServiceSnapshot) (k : ℕ) (item : ServiceEvidence)
      → lookup k (direct_from evaluate m services) ≡ some item
      → (lookup k m ≡ some item)
        ⊎ ((s : ServiceSnapshot) × Memᴰ s services
            × (is_active s ≡ true)
            × (s.id ≡ k)
            × (evaluate s ≡ item))
  unfolding direct_from
  direct_from_origin m [] k item h = inl h
  direct_from_origin m (s ∷ services) k item h = elim (Bool-cases (is_active s)) [
    | inl a ↦
        elim (direct_from_origin (insert s.id (evaluate s) m) services k item
          (rw (a, direct_from) at h)) [
            | inl now ↦ elim (ℕ_discrete k s.id) [
              | yes e ↦ inr (s, Memᴰ-here s services, a, sym e, ground arith)
              | no e ↦ inl (ground arith)
            ]
            | inr (t, m', b, e, f) ↦ inr (t, Memᴰ-there s m', b, e, f)
          ]
    | inr a ↦ elim (direct_from_origin m services k item (rw (a, direct_from) at h)) [
      | inl now ↦ inl now
      | inr (t, m', b, e, f) ↦ inr (t, Memᴰ-there s m', b, e, f)
    ]
  ]

  direct_from_keep :
      (m : Map ServiceEvidence) (services : List ServiceSnapshot) (k : ℕ)
      → ¬ Memᴰ k (service_ids services)
      → lookup k (direct_from evaluate m services) ≡ lookup k m
  unfolding direct_from
  direct_from_keep m [] k h = refl
  direct_from_keep m (s ∷ services) k h =
      let apart : ¬ (k ≡ s.id) = λ e. h ((Memᴰ-cons k s.id (service_ids services)).1 (inl e)) in
      let later : ¬ Memᴰ k (service_ids services) = λ t. h (Memᴰ-there s.id t) in
      elim (Bool-cases (is_active s)) [
        | inl a ↦
            rw a (direct_from_keep (insert s.id (evaluate s) m) services k later ∙ ground arith)
        | inr a ↦ rw a (direct_from_keep m services k later)
      ]

  -- An active service has the evidence of its own evaluation.
  pub direct_from_find :
      (m : Map ServiceEvidence) (services : List ServiceSnapshot) (s : ServiceSnapshot)
      → Distinct (service_ids services)
      → Memᴰ s services
      → is_active s ≡ true
      → lookup s.id (direct_from evaluate m services) ≡ some (evaluate s)
  unfolding direct_from
  direct_from_find m [] s d t a = absurd (not-Memᴰ-nil t)
  direct_from_find m (y ∷ services) s d t a =
      ⊎_elim first
        (λ t'. elim (Bool-cases (is_active y)) [
          | inl b ↦ rw b (direct_from_find (insert y.id (evaluate y) m) services s d.1 t' a)
          | inr b ↦ rw b (direct_from_find m services s d.1 t' a)
        ])
        ((Memᴰ-cons s y services).0 t)
    where
      first : s ≡ y → lookup s.id (direct_from evaluate m (y ∷ services)) ≡ some (evaluate s)
      first e =
          let b : is_active y ≡ true = subst (λ x. is_active x ≡ true) e a in
          rw (e, b) (direct_from_keep (insert y.id (evaluate y) m) services y.id d.0 ∙ ground arith)
