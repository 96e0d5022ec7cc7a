-- ===== src/Simulator/Window/Times.antt =====
-- The critical times: which instants are sampled, and in which order.
use cert_rollover_impact_ass.Prelude.{
  ℕ, ◌≤◌, ◌<◌, ◌↔◌, List, [], ◌∷◌, Memᴰ, Memᴰ-cons, All, arith, inl, inr, ◌==◌, Bool-cases,
}
use cert_rollover_impact_ass.Prelude.Sorting.{sort_by, IsIncreasing, IsSorted}
use cert_rollover_impact_ass.Prelude.Sorting.Laws.{mem-sort_by, sort_by-IsSorted}
use cert_rollover_impact_ass.Simulator.Snapshot.{Instant, ScenarioConfig}
use cert_rollover_impact_ass.Simulator.Window.{
  midpoint, drop_repeats, compact, six_points, critical_times,
}

All-lt : (x y : ℕ) (ys : List ℕ) → x < y → All (λ z. y ≤ z) ys → All (λ z. x < z) ys
All-lt x y [] h a = tt
All-lt x y (z ∷ ys) h a = (omega arith, All-lt x y ys h a.1)

All-lt_le : (x y : ℕ) (ys : List ℕ) → x ≤ y → All (λ z. y < z) ys → All (λ z. x < z) ys
All-lt_le x y [] h a = tt
All-lt_le x y (z ∷ ys) h a = (omega arith, All-lt_le x y ys h a.1)

drop_repeats-IsIncreasing :
    (last : ℕ) (points : List ℕ)
    → All (λ p. last ≤ p) points
    → IsSorted points
    → All (λ p. last < p) (drop_repeats last points) × IsIncreasing (drop_repeats last points)
unfolding drop_repeats
drop_repeats-IsIncreasing last [] a s = (tt, tt)
drop_repeats-IsIncreasing last (p ∷ ps) a s = elim (Bool-cases (p == last)) [
  | inl e ↦ rw e (drop_repeats-IsIncreasing last ps a.1 s.1)
  | inr e ↦
      let (above, rest) = drop_repeats-IsIncreasing p ps s.0 s.1 in
      let lt : last < p = ground arith in
      rw e ((lt, All-lt_le last p (drop_repeats p ps) (omega arith) above), (above, rest))
]

mem-drop_repeats :
    (t last : ℕ) (points : List ℕ)
    → Memᴰ t (last ∷ drop_repeats last points) ↔ Memᴰ t (last ∷ points)
unfolding drop_repeats
mem-drop_repeats t last [] = (λ m. m, λ m. m)
mem-drop_repeats t last (p ∷ ps) = ground (
  arith,
  mem-drop_repeats t last ps,
  mem-drop_repeats t p ps,
  Memᴰ-cons t last (p ∷ ps),
  Memᴰ-cons t p ps,
  Memᴰ-cons t last ps,
  Memᴰ-cons t last (drop_repeats last ps),
  Memᴰ-cons t last (p ∷ drop_repeats p ps),
)

compact-IsIncreasing : (points : List ℕ) → IsSorted points → IsIncreasing (compact points)
unfolding compact
compact-IsIncreasing [] s = tt
compact-IsIncreasing (p ∷ ps) s = drop_repeats-IsIncreasing p ps s.0 s.1

mem-compact : (t : ℕ) (points : List ℕ) → Memᴰ t (compact points) ↔ Memᴰ t points
unfolding compact
mem-compact t [] = (λ m. m, λ m. m)
mem-compact t (p ∷ ps) = mem-drop_repeats t p ps

-- The critical times are in strictly rising order, so no instant is sampled twice.
pub critical_times-IsIncreasing : (config : ScenarioConfig) → IsIncreasing (critical_times config)
unfolding critical_times
critical_times-IsIncreasing config =
    compact-IsIncreasing (sort_by (λ t. t) (six_points config))
      (sort_by-IsSorted (six_points config))

pub mem-critical_times :
    (config : ScenarioConfig) (t : Instant)
    → Memᴰ t (critical_times config) ↔ Memᴰ t (six_points config)
unfolding critical_times
mem-critical_times config t = ground (
  arith,
  mem-compact t (sort_by (λ p. p) (six_points config)),
  mem-sort_by (λ p. p) t (six_points config),
)

-- The midpoint lies in the overlap, also where the distance does not fit in an int64.
pub midpoint_bounds :
    (start end : Instant) → start ≤ end → (start ≤ midpoint start end) × (midpoint start end ≤ end)
unfolding midpoint
midpoint_bounds start end h = ground arith
