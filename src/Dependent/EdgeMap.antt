-- ===== src/Dependent/EdgeMap.antt =====
-- What servicesContainCycle accepts, said of its edge map.
use cert_rollover_impact_ass.Prelude.Sorting.{sorted_unique}
use cert_rollover_impact_ass.Prelude.{
  map, insert, ℕ, ◌∷◌, ◌∙◌, ◌≡◌, ◌↔◌, refl, true, Option, none, some, List, [], subst,
}
use cert_rollover_impact_ass.Graph.{
  Edges, Colours, Outcome, done, cycle_at, missing, out_of_fuel, search_cycle,
}
use cert_rollover_impact_ass.Graph.Walk.{IsAcyclic}
use cert_rollover_impact_ass.Graph.Verdict.{Covers, AllKnown, search_cycle_decides}
use cert_rollover_impact_ass.Dependent.{
  DependentService, Codec, edges_from, is_key, is_done, check_edges, check_services,
}

-- Go gives each key of a map that it ranges over.
abbrev pub IsRanging : Codec → Type 0
IsRanging codec = (edges : Edges) → Covers edges (codec.order edges)

-- The edge map can be built, its edges lead to its keys, and have no cycle.
abbrev pub HasSoundEdges : Codec → List DependentService → Type 0
HasSoundEdges codec services =
    (edges : Edges) × (edges_from codec [] services ≡ some edges)
    × IsAcyclic edges
    × AllKnown (is_key edges) edges

is_done_lem : (o : Outcome) → is_done o ≡ true → (t : Colours) × (o ≡ done t)
is_done_lem (done t) h = (t, refl)
is_done_lem (cycle_at id) h = cc
is_done_lem (missing id) h = cc
is_done_lem out_of_fuel h = cc

check_edges_iff :
    (codec : Codec) (edges : Edges)
    → IsRanging codec
    → (check_edges codec (some edges) ≡ true) ↔ (IsAcyclic edges × AllKnown (is_key edges) edges)
check_edges_iff codec edges ranging =
    let (to, back) =
      search_cycle_decides (is_key edges) edges (codec.order edges) (ranging edges) in
    (
      λ h. to (is_done_lem (search_cycle (is_key edges) edges (codec.order edges)) h),
      λ s. let (t, e) = back s in rw e refl,
    )

pub check_services_edges :
    (codec : Codec) (services : List DependentService)
    → IsRanging codec
    → (check_services codec services ≡ true) ↔ HasSoundEdges codec services
unfolding check_services
check_services_edges codec services ranging = go (edges_from codec [] services) refl
  where
    go :
        (o : Option Edges)
        → edges_from codec [] services ≡ o
        → (check_edges codec o ≡ true) ↔ HasSoundEdges codec services
    go none e = (λ h. cc, λ (edges, f, _, _). cc)
    go (some edges) e =
        let (to, back) = check_edges_iff codec edges ranging in
        (
          λ h. let (a, k) = to h in (edges, e, a, k),
          λ (edges', f, a, k).
              let same : edges' ≡ edges = cc in
              back (subst IsAcyclic same a, subst (λ x. AllKnown (is_key x) x) same k),
        )

-- Only the ids and the dependencies of the services count.
abbrev pub SameEdges : DependentService → DependentService → Type 0
SameEdges s t = (s.id ≡ t.id) × (s.dependency_edges_json ≡ t.dependency_edges_json)

-- one turn of the loop, with the later ones
abbrev turn : Edges → (Edges → Option Edges) → ℕ → Option (List ℕ) → Option Edges
turn edges later id none = none
turn edges later id (some ids) = later (insert id (sorted_unique ids) edges)

turn_same :
    (edges : Edges) (f g : Edges → Option Edges) (id : ℕ) (o : Option (List ℕ))
    → ((e : Edges) → f e ≡ g e)
    → turn edges f id o ≡ turn edges g id o
turn_same edges f g id none same = refl
turn_same edges f g id (some ids) same = same (insert id (sorted_unique ids) edges)

edges_from_same :
    (codec : Codec) (f g : DependentService → DependentService)
    → ((s : DependentService) → SameEdges (f s) (g s))
    → (edges : Edges) (services : List DependentService)
    → edges_from codec edges (map f services) ≡ edges_from codec edges (map g services)
unfolding edges_from
edges_from_same codec f g same edges [] = refl
edges_from_same codec f g same edges (s ∷ services) =
    let (id, json) = same s in
    let later_f : Edges → Option Edges = λ e. edges_from codec e (map f services) in
    let later_g : Edges → Option Edges = λ e. edges_from codec e (map g services) in
    let row : turn edges later_f (f s).id (codec.decode_ids (f s).dependency_edges_json)
        ≡ turn edges later_f (g s).id (codec.decode_ids (g s).dependency_edges_json) =
      λ i. turn edges later_f (id i) (codec.decode_ids (json i)) in
    row
    ∙ turn_same edges later_f later_g (g s).id (codec.decode_ids (g s).dependency_edges_json)
        (λ e. edges_from_same codec f g same e services)

pub same-HasSoundEdges :
    (codec : Codec) (f g : DependentService → DependentService)
    → ((s : DependentService) → SameEdges (f s) (g s))
    → (services : List DependentService) → HasSoundEdges codec (map g services)
    → HasSoundEdges codec (map f services)
same-HasSoundEdges codec f g same services (edges, e, acyclic, known) =
    (edges, edges_from_same codec f g same [] services ∙ e, acyclic, known)
