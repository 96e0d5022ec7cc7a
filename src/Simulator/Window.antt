-- ===== src/Simulator/Window.antt =====
-- The time points of a simulation and the trust anchors that are active at each: criticalTimes,
-- activeAnchors and mapKeys of backend/internal/algorithm/simulator.go.
use cert_rollover_impact_ass.Prelude.{
  ℕ, ◌+◌, ◌-◌, ◌*◌, ◌/◌, ◌^◌, true, List, [], ◌∷◌, IdSet, insert, keys, leb, min, if◌then◌else◌,
  ◌==◌, contains,
}
use cert_rollover_impact_ass.Prelude.Sorting.{sort_by}
use cert_rollover_impact_ass.Simulator.Snapshot.{Instant, ScenarioConfig, before, after}
pub mod Times
pub mod Anchors

-- time.Minute, in nanoseconds
abbrev pub minute : ℕ
minute = 60_000_000_000

-- `start.Add(end.Sub(start) / 2)`. `Sub` stops at the bounds of an int64, and `/` cuts towards 0.
-- Instants are far above 0, so that the `-` for a negative duration is exact.
unfoldable pub midpoint : Instant → Instant → Instant
midpoint start end =
    if leb start end
    then start + min (end - start) (2 ^ 63 - 1) / 2
    else start - min (start - end) (2 ^ 63) / 2

-- the loop that drops a point equal to the last one kept
drop_repeats : Instant → List Instant → List Instant
drop_repeats last [] = []
drop_repeats last (point ∷ points) =
    let skipped = drop_repeats last points in
    let kept = point ∷ drop_repeats point points in if point == last then skipped else kept

compact : List Instant → List Instant
unfolding drop_repeats
compact [] = []
compact (point ∷ points) = point ∷ drop_repeats point points

abbrev pub six_points : ScenarioConfig → List Instant
six_points config =
    (overlap_start - minute)
    ∷ overlap_start
    ∷ midpoint overlap_start overlap_end
    ∷ overlap_end
    ∷ (overlap_end + minute)
    ∷ simulation_time
    ∷ []
  where
    open config use {overlap_start, overlap_end, simulation_time}

unfoldable pub critical_times : ScenarioConfig → List Instant
unfolding sort_by compact midpoint
critical_times config = compact (sort_by (λ t. t) (six_points config))

unfoldable pub active_anchors : ScenarioConfig → Instant → IdSet
active_anchors config at =
    if before at overlap_start
    then insert old_anchor_id true []
    else if after at overlap_end
    then insert new_anchor_id true []
    else insert new_anchor_id true (insert old_anchor_id true [])
  where
    open config use {old_anchor_id, new_anchor_id, overlap_start, overlap_end}

-- the keys that `range` gives: each key of the map once
distinct : List ℕ → List ℕ
distinct [] = []
distinct (k ∷ ks) = let rest = distinct ks in if contains ks k then rest else k ∷ rest

-- `mapKeys`: the keys, each once and sorted. The order in which `range` gives them is lost.
unfoldable pub map_keys : IdSet → List ℕ
unfolding sort_by distinct contains
map_keys values = sort_by (λ k. k) (distinct (keys values))
