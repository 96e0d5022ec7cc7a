-- ===== src/Simulator/Run/Report.antt =====
-- What a simulation reports: an unhealthy service at a sampled instant, and nothing else.
use cert_rollover_impact_ass.Prelude.{
  ℕ, ◌≡◌, ◌⊎◌, sym, ◌∙◌, true, false, none, some, List, [], ◌∷◌, Memᴰ, Memᴰ-cons, Memᴰ-here,
  Memᴰ-there, not-Memᴰ-nil, Map, Bool-cases, Option-cases, inl, inr, ⊎_elim, subst, ap, ap₂,
}
use mathlib.Core.Bool.{false≢true}
use cert_rollover_impact_ass.Simulator.Snapshot.{Instant, ServiceSnapshot}
use cert_rollover_impact_ass.Simulator.Direct.{ServiceEvidence}
use cert_rollover_impact_ass.Simulator.Resolve.{Resolved}
use cert_rollover_impact_ass.Simulator.Run.{
  AffectedService, PointReport, is_active, affect, add_item, resolve_active,
}

-- `entry` reports the service, whose walk ended in `item`, as unreachable.
pub record Reports (call : ℕ → Resolved) (at : Instant) (services : List ServiceSnapshot)
    (entry : AffectedService) : Type 0 where
  pub service : ServiceSnapshot
  pub item : ServiceEvidence
  pub path : List ℕ
  pub member : Memᴰ service services
  pub active : is_active service ≡ true
  pub resolved : call service.id ≡ some (item, path)
  pub unreachable : item.reachable ≡ false
  pub entry_is : entry ≡ affect service at item

module _ (by_id : Map ServiceSnapshot) (call : ℕ → Resolved) (at : Instant) where
  -- the three rounds of the loop: an inactive service, one that is reachable, one that is not
  pub resolve_active_inactive :
      (s : ServiceSnapshot) (services : List ServiceSnapshot)
      → is_active s ≡ false
      → resolve_active by_id call at (s ∷ services) ≡ resolve_active by_id call at services
  unfolding resolve_active
  resolve_active_inactive s services a = simp a

  pub resolve_active_add :
      (s : ServiceSnapshot) (services : List ServiceSnapshot) (report : PointReport)
      → is_active s ≡ true
      → resolve_active by_id call at (s ∷ services) ≡ some report
      → (item : ServiceEvidence) × (path : List ℕ) × (rest : PointReport) × (call s.id
          ≡ some (item, path))
        × (resolve_active by_id call at services ≡ some rest)
        × (report ≡ add_item by_id at s item path rest)
  unfolding resolve_active
  resolve_active_add s services report a h = elim (Option-cases (call s.id)) [
    | inl c ↦ let bad : none ≡ some report = simp (a, c) at h in cc
    | inr ((item, path), c) ↦ elim (Option-cases (resolve_active by_id call at services)) [
      | inl e ↦ let bad : none ≡ some report = simp (a, c, e) at h in cc
      | inr (rest, e) ↦
          let same : some (add_item by_id at s item path rest) ≡ some report =
            simp (a, c, e) at h in
          (item, path, rest, c, e, cc)
    ]
  ]

  pub affected-add_item :
      (s : ServiceSnapshot) (item : ServiceEvidence) (path : List ℕ) (rest : PointReport)
      → ((add_item by_id at s item path rest).affected ≡ affect s at item ∷ rest.affected)
          × (item.reachable ≡ false)
        ⊎ ((add_item by_id at s item path rest).affected ≡ rest.affected) × (item.reachable ≡ true)
  unfolding add_item
  affected-add_item s item path rest = elim (Bool-cases item.reachable) [
    | inl r ↦ inr (simp r, r)
    | inr r ↦ inl (simp r, r)
  ]

  Reports-there :
      (s : ServiceSnapshot) (services : List ServiceSnapshot) (entry : AffectedService)
      → Reports call at services entry
      → Reports call at (s ∷ services) entry
  Reports-there s services entry r = record {
    service = r.service;
    item = r.item;
    path = r.path;
    member = Memᴰ-there s r.member;
    active = r.active;
    resolved = r.resolved;
    unreachable = r.unreachable;
    entry_is = r.entry_is;
  }

  pub Reports-of_mem :
      (services : List ServiceSnapshot) (report : PointReport)
      → resolve_active by_id call at services ≡ some report
      → (entry : AffectedService) → Memᴰ entry report.affected
      → Reports call at services entry
  unfolding resolve_active
  Reports-of_mem [] report h entry m =
      let empty : report.affected ≡ [] = cc in absurd (not-Memᴰ-nil (subst (Memᴰ entry) empty m))
  Reports-of_mem (s ∷ services) report h entry m = elim (Bool-cases (is_active s)) [
    | inr a ↦
        Reports-there s services entry
          (Reports-of_mem services report (sym (resolve_active_inactive s services a) ∙ h) entry m)
    | inl a ↦
        let (item, path, rest, c, e, same) = resolve_active_add s services report a h in
        let earlier = Reports-of_mem services rest e entry in
        let all = ap (λ (p : PointReport). p.affected) same in
        elim (affected-add_item s item path rest) [
          | inr (kept, r) ↦
              Reports-there s services entry (earlier (subst (Memᴰ entry) (all ∙ kept) m))
          | inl (added, r) ↦
              ⊎_elim
                (λ is_new. record {
                  service = s;
                  item = item;
                  path = path;
                  member = Memᴰ-here s services;
                  active = a;
                  resolved = c;
                  unreachable = r;
                  entry_is = is_new;
                })
                (λ old. Reports-there s services entry (earlier old))
                ((Memᴰ-cons entry (affect s at item) rest.affected).0
                  (subst (Memᴰ entry) (all ∙ added) m))
        ]
  ]

  affected-mono :
      (s : ServiceSnapshot) (item : ServiceEvidence) (path : List ℕ) (rest : PointReport)
      (entry : AffectedService)
      → Memᴰ entry rest.affected
      → Memᴰ entry (add_item by_id at s item path rest).affected
  affected-mono s item path rest entry m = elim (affected-add_item s item path rest) [
    | inl (added, r) ↦ rw added (Memᴰ-there (affect s at item) m)
    | inr (kept, r) ↦ rw kept m
  ]

  pub mem_of_reports :
      (services : List ServiceSnapshot) (report : PointReport)
      → resolve_active by_id call at services ≡ some report
      → (t : ServiceSnapshot) (item : ServiceEvidence) (path : List ℕ) → Memᴰ t services
      → is_active t ≡ true
      → call t.id ≡ some (item, path)
      → item.reachable ≡ false
      → Memᴰ (affect t at item) report.affected
  mem_of_reports [] report h t item path m a c r = absurd (not-Memᴰ-nil m)
  mem_of_reports (s ∷ services) report h t item path m a c r = elim (Bool-cases (is_active s)) [
    | inr b ↦
        let tail =
          mem_of_reports services report (sym (resolve_active_inactive s services b) ∙ h) in
        ⊎_elim (λ e. absurd (false≢true (sym b ∙ subst (λ x. is_active x ≡ true) e a)))
          (λ later. tail t item path later a c r) ((Memᴰ-cons t s services).0 m)
    | inl b ↦
        let (item', path', rest, c', e, same) = resolve_active_add s services report b h in
        let tail = mem_of_reports services rest e t item path in
        let all = ap (λ (p : PointReport). p.affected) same in
        rw all (
          ⊎_elim
            (λ is_s.
              let one : item ≡ item' = cc (ap (λ (x : ServiceSnapshot). call x.id) is_s, c, c') in
              first s rest item' path' (subst (λ (x : ServiceEvidence). x.reachable ≡ false) one r)
                (ap₂ (λ (x : ServiceSnapshot) (y : ServiceEvidence). affect x at y) is_s one))
            (λ later. affected-mono s item' path' rest (affect t at item) (tail later a c r))
            ((Memᴰ-cons t s services).0 m))
  ]
    where
      first :
          (s : ServiceSnapshot) (rest : PointReport) (item' : ServiceEvidence) (path' : List ℕ)
          → item'.reachable ≡ false
          → affect t at item ≡ affect s at item'
          → Memᴰ (affect t at item) (add_item by_id at s item' path' rest).affected
      first s rest item' path' r' same = elim (affected-add_item s item' path' rest) [
        | inl (added, _) ↦ rw (added, same) (Memᴰ-here (affect s at item') rest.affected)
        | inr (_, bad) ↦ absurd (false≢true (sym r' ∙ bad))
      ]
