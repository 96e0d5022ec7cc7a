-- ===== src/Simulator/Window/Anchors.antt =====
-- Which anchors are active when.
use cert_rollover_impact_ass.Prelude.{
  ℕ, ◌+◌, ◌-◌, ◌≤◌, ◌<◌, ◌≡◌, ◌≢◌, ◌↔◌, ◌⊎◌, true, false, List, [], ◌∷◌, Memᴰ, Memᴰ-cons, Memᴰ-here,
  Memᴰ-there, IdSet, has, keys, arith, contains_iff,
}
use cert_rollover_impact_ass.Prelude.Sorting.{IsIncreasing}
use cert_rollover_impact_ass.Prelude.Sorting.Laws.{mem-sort_by, sort_by-IsIncreasing, Distinct}
use cert_rollover_impact_ass.Simulator.Snapshot.{Instant, ScenarioConfig}
use cert_rollover_impact_ass.Simulator.Window.{
  minute, active_anchors, distinct, map_keys, critical_times, midpoint, six_points,
}
use cert_rollover_impact_ass.Simulator.Window.Times.{
  mem-critical_times, critical_times-IsIncreasing, midpoint_bounds,
}

-- In an ordered window the old anchor is active up to the end of the overlap, the new one from its
-- start on, both inclusive, and no other anchor at any time.
pub active_anchors_iff :
    (config : ScenarioConfig) (at : Instant) (id : ℕ)
    → config.overlap_start ≤ config.overlap_end
    → (has (active_anchors config at) id ≡ true) ↔ (
        (id ≡ config.old_anchor_id) × (at ≤ config.overlap_end)
        ⊎ (id ≡ config.new_anchor_id) × (config.overlap_start ≤ at))
unfolding active_anchors
active_anchors_iff config at id h = ground arith

mem-distinct : (a : ℕ) (ks : List ℕ) → Memᴰ a (distinct ks) ↔ Memᴰ a ks
unfolding distinct
mem-distinct a [] = (λ m. m, λ m. m)
mem-distinct a (k ∷ ks) =
    ground
      (arith, mem-distinct a ks, contains_iff ks k, Memᴰ-cons a k ks, Memᴰ-cons a k (distinct ks))

distinct-Distinct : (ks : List ℕ) → Distinct (distinct ks)
unfolding distinct
distinct-Distinct [] = tt
distinct-Distinct (k ∷ ks) =
    ground (arith, distinct-Distinct ks, mem-distinct k ks, contains_iff ks k)

-- `mapKeys` lists the keys of the map, each once, in rising order.
pub map_keys_lem :
    (m : IdSet) → IsIncreasing (map_keys m) × ((id : ℕ) → Memᴰ id (map_keys m) ↔ Memᴰ id (keys m))
unfolding map_keys
map_keys_lem m = (
  sort_by-IsIncreasing (distinct (keys m)) (distinct-Distinct (keys m)),
  λ id. ground (arith, mem-sort_by (λ k. k) id (distinct (keys m)), mem-distinct id (keys m)),
)

-- What is sampled: the critical times are strictly rising; they are the six points around the
-- overlap and no others; and, for a window that is ordered and does not begin within a minute of
-- time 0, each phase is among them: an instant at which the old anchor alone is active, one in the
-- overlap at which both are, and one at which the new anchor alone is.
pub critical_times_cover :
    (config : ScenarioConfig)
    → config.old_anchor_id ≢ config.new_anchor_id
    → config.overlap_start < config.overlap_end
    → minute ≤ config.overlap_start
    → IsIncreasing (critical_times config)
      × ((t : Instant) → Memᴰ t (critical_times config) ↔ Memᴰ t (six_points config))
      × ((t : Instant) × Memᴰ t (critical_times config)
          × (has (active_anchors config t) config.old_anchor_id ≡ true)
          × (has (active_anchors config t) config.new_anchor_id ≡ false))
      × ((t : Instant) × Memᴰ t (critical_times config)
          × (has (active_anchors config t) config.old_anchor_id ≡ true)
          × (has (active_anchors config t) config.new_anchor_id ≡ true))
      × ((t : Instant) × Memᴰ t (critical_times config)
          × (has (active_anchors config t) config.old_anchor_id ≡ false)
          × (has (active_anchors config t) config.new_anchor_id ≡ true))
unfolding active_anchors
critical_times_cover config distinct ordered late =
    let sampled = λ (t : Instant). mem-critical_times config t in
    let (low, high) = midpoint_bounds overlap_start overlap_end (omega arith) in
    (
      critical_times-IsIncreasing config,
      sampled,
      (
        overlap_start - minute,
        (sampled (overlap_start - minute)).1 (Memᴰ-here _ _),
        ground arith,
        ground arith,
      ),
      (
        midpoint overlap_start overlap_end,
        (sampled (midpoint overlap_start overlap_end)).1
            (Memᴰ-there _ (Memᴰ-there _ (Memᴰ-here _ _))),
        ground arith,
        ground arith,
      ),
      (
        overlap_end + minute,
        (sampled (overlap_end + minute)).1
            (Memᴰ-there _ (Memᴰ-there _ (Memᴰ-there _ (Memᴰ-there _ (Memᴰ-here _ _))))),
        ground arith,
        ground arith,
      ),
    )
  where
    open config use {overlap_start, overlap_end}
