-- ===== src/Dependent/Keyed.antt =====
-- Services with ids of their own: the order of the list does not count then.
use cert_rollover_impact_ass.Prelude.{
  ℕ, ◌≡◌, ◌≢◌, ◌⊎◌, ◌↔◌, ◌∙◌, sym, ap, subst, List, [], ◌∷◌, map, Memᴰ, Memᴰ-there, Memᴰ-cons,
  not-Memᴰ-nil, inl, inr,
}
use native.Mathlib.Decide.{ℕ_discrete}
use cert_rollover_impact_ass.Service.Laws.{mem-map, map-mem}
use cert_rollover_impact_ass.Dependent.{DependentService, Codec}
use cert_rollover_impact_ass.Dependent.Depends.{
  LastRow, here, there, LastRow-mem, Dependency, DependsOn, direct, further, IsSound,
}

-- An id belongs to one service only.
abbrev pub IsKeyed : List DependentService → Type 0
IsKeyed services =
    (s t : DependentService) → Memᴰ s services → Memᴰ t services → s.id ≡ t.id → s ≡ t

abbrev pub SameMembers : List DependentService → List DependentService → Type 0
SameMembers xs ys = (s : DependentService) → Memᴰ s xs ↔ Memᴰ s ys

pub IsKeyed-members : (xs ys : List DependentService) → SameMembers xs ys → IsKeyed xs → IsKeyed ys
IsKeyed-members xs ys same keyed s t m n e = keyed s t ((same s).1 m) ((same t).1 n) e

pub IsKeyed-cons :
    (s : DependentService) (services : List DependentService)
    → ((t : DependentService) → Memᴰ t services → t.id ≢ s.id)
    → IsKeyed services
    → IsKeyed (s ∷ services)
IsKeyed-cons s services free keyed x y m n e = elim ((Memᴰ-cons x s services).0 m) [
  | inl a ↦ elim ((Memᴰ-cons y s services).0 n) [
    | inl b ↦ a ∙ sym b
    | inr k ↦ absurd (free y k (sym e ∙ ap (λ (z : DependentService). z.id) a))
  ]
  | inr j ↦ elim ((Memᴰ-cons y s services).0 n) [
    | inl b ↦ absurd (free x j (e ∙ ap (λ (z : DependentService). z.id) b))
    | inr k ↦ keyed x y j k e
  ]
]

pub IsKeyed-map :
    (f : DependentService → DependentService) (services : List DependentService)
    → ((s : DependentService) → (f s).id ≡ s.id)
    → IsKeyed services
    → IsKeyed (map f services)
IsKeyed-map f services same keyed x y m n e =
    let (s, j, a) = mem-map f services x m in
    let (t, k, b) = mem-map f services y n in
    let id : DependentService → ℕ = λ z. z.id in
    let ids : s.id ≡ t.id = sym (same s) ∙ sym (ap id a) ∙ e ∙ ap id b ∙ same t in
    a ∙ ap f (keyed s t j k ids) ∙ sym b

pub SameMembers-cons :
    (s : DependentService) (xs ys : List DependentService)
    → SameMembers xs ys
    → SameMembers (s ∷ xs) (s ∷ ys)
SameMembers-cons s xs ys same t = (
  λ m. elim ((Memᴰ-cons t s xs).0 m) [
    | inl e ↦ (Memᴰ-cons t s ys).1 (inl e)
    | inr n ↦ Memᴰ-there s ((same t).0 n)
  ],
  λ m. elim ((Memᴰ-cons t s ys).0 m) [
    | inl e ↦ (Memᴰ-cons t s xs).1 (inl e)
    | inr n ↦ Memᴰ-there s ((same t).1 n)
  ],
)

pub SameMembers-map :
    (f : DependentService → DependentService) (xs ys : List DependentService)
    → SameMembers xs ys
    → SameMembers (map f xs) (map f ys)
SameMembers-map f xs ys same t = (
  λ m.
      let (s, n, e) = mem-map f xs t m in
      subst (λ z. Memᴰ z (map f ys)) (sym e) (map-mem f ys s ((same s).0 n)),
  λ m.
      let (s, n, e) = mem-map f ys t m in
      subst (λ z. Memᴰ z (map f xs)) (sym e) (map-mem f xs s ((same s).1 n)),
)

LastRow-cases :
    (u : ℕ) (services : List DependentService)
    → ((s : DependentService) × LastRow u services s)
      ⊎ ((t : DependentService) → Memᴰ t services → t.id ≢ u)
LastRow-cases u [] = inr (λ t m. absurd (not-Memᴰ-nil m))
LastRow-cases u (s ∷ services) = elim (LastRow-cases u services) [
  | inl (t, l) ↦ inl (t, there l)
  | inr free ↦ elim (ℕ_discrete s.id u) [
    | yes e ↦ inl (s, here e free)
    | no n ↦ inr (λ t m. elim ((Memᴰ-cons t s services).0 m) [
      | inl e ↦ subst (λ (x : DependentService). x.id ≢ u) (sym e) n
      | inr k ↦ free t k
    ])
  ]
]

LastRow-of_mem :
    (u : ℕ) (services : List DependentService) (s : DependentService)
    → IsKeyed services
    → Memᴰ s services
    → s.id ≡ u
    → LastRow u services s
LastRow-of_mem u services s keyed m e = elim (LastRow-cases u services) [
  | inl (t, l) ↦
      let (n, f) = LastRow-mem l in subst (LastRow u services) (keyed t s n m (f ∙ sym e)) l
  | inr free ↦ absurd (free s m e)
]

module _ (codec : Codec) (xs ys : List DependentService) (same : SameMembers xs ys)
    (keyed : IsKeyed ys) where
  Dependency-members : (u v : ℕ) → Dependency codec xs u v → Dependency codec ys u v
  Dependency-members u v (s, l, row) =
      let (m, e) = LastRow-mem l in (s, LastRow-of_mem u ys s keyed ((same s).0 m) e, row)

  DependsOn-members : {u v : ℕ} → DependsOn codec xs u v → DependsOn codec ys u v
  DependsOn-members {u} {v} (direct m) = direct (Dependency-members u v m)
  DependsOn-members {v = w} (further {v} p m) =
      further (DependsOn-members p) (Dependency-members v w m)

-- Of services with ids of their own, the order does not count.
pub IsSound-members :
    (codec : Codec) (xs ys : List DependentService)
    → SameMembers xs ys
    → IsKeyed xs
    → IsSound codec xs
    → IsSound codec ys
IsSound-members codec xs ys same keyed sound =
    let back : SameMembers ys xs = λ s. ((same s).1, (same s).0) in
    record {
      decodable = λ s m. sound.decodable s ((same s).1 m);
      closed = λ u v d.
          let (s, m, e) = sound.closed u v (Dependency-members codec ys xs back keyed u v d) in
          (s, (same s).0 m, e);
      acyclic = λ u p. sound.acyclic u (DependsOn-members codec ys xs back keyed p);
    }
