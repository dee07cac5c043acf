-- ===== src/Repair/Closure/Flows.antt =====
-- Flows along the field lineage, and what one round of `_closure` adds to its queue.
use sidq.Prelude.{
  ℕ, suc, ◌+◌, ◌≤◌, str_eq, Bool, true, false, ◌&&◌, ◌||◌, List, [], ◌∷◌, any, length, arith,
  Bool-cases, Option-cases, if◌then◌else◌, ◌≡◌, refl, inl, inr, str_eq_iff,
}
use sidq.Prelude.Pairs.{Pair, has_pair}
use sidq.Catalog.Snapshot.{LineageEdge}
use sidq.Repair.Closure.{is_text, goes_from, push_target, push_targets}

-- Field lineage carries the column `a` into the column `b` by an edge.
unfoldable pub feeds : List LineageEdge → Pair → Pair → Bool
unfolding goes_from is_text
feeds edges a b =
    any (λ edge. goes_from edge a && (str_eq edge.target_urn b.0 && is_text edge.target_field b.1))
      edges

-- A chain of edges from one column to another.
pub data Flows (edges : List LineageEdge) (start : Pair) : Pair → Type 0 where
  here : Flows edges start start
  along : (a b : Pair) → Flows edges start a → feeds edges a b ≡ true → Flows edges start b

-- What one edge adds.
pub push_target_lem :
    (c : Pair) (edge : LineageEdge) (queue : List Pair)
    → has_pair c (push_target edge queue)
      ≡ (has_pair c queue || (str_eq edge.target_urn c.0 && is_text edge.target_field c.1))
unfolding has_pair push_target is_text
push_target_lem c edge queue = elim (Option-cases edge.target_field) [
  | inl e ↦ ground (arith, e)
  | inr (f, e) ↦ ground (
    arith,
    e,
    str_eq_iff edge.target_urn c.0,
    str_eq_iff c.0 edge.target_urn,
    str_eq_iff f c.1,
    str_eq_iff c.1 f,
  )
]

-- The queue gets the columns that the node feeds, and nothing else.
pub push_targets_lem :
    (c node : Pair) (edges : List LineageEdge) (queue : List Pair)
    → has_pair c (push_targets node edges queue) ≡ (has_pair c queue || feeds edges node c)
unfolding push_targets feeds
push_targets_lem c node [] queue = ground arith
push_targets_lem c node (edge ∷ edges) queue = elim (Bool-cases (goes_from edge node)) [
  | inl e ↦ ground (
    arith,
    e,
    push_targets_lem c node edges (push_target edge queue),
    push_target_lem c edge queue,
  )
  | inr e ↦ ground (arith, e, push_targets_lem c node edges queue)
]

-- Whether the edge starts at a column that is reached.
unfoldable pub from_reached : LineageEdge → List Pair → Bool
unfolding goes_from
from_reached edge reached = any (goes_from edge) reached

-- The edges that the search may still push.
unfoldable pub unexplored : List LineageEdge → List Pair → ℕ
unfolding from_reached
unexplored [] reached = 0
unexplored (edge ∷ edges) reached =
    let rest = unexplored edges reached in if from_reached edge reached then rest else suc rest

pub unexplored_start : (edges : List LineageEdge) → unexplored edges [] ≤ length edges
unfolding unexplored from_reached
unexplored_start [] = ground arith
unexplored_start (edge ∷ edges) = ground (arith, unexplored_start edges)

pushed_at_most :
    (edge : LineageEdge) (queue : List Pair) → length (push_target edge queue) ≤ suc (length queue)
unfolding push_target
pushed_at_most edge queue = elim (Option-cases edge.target_field) [
  | inl e ↦ ground (arith, e)
  | inr (f, e) ↦ ground (arith, e)
]

-- An edge from a column starts at a reached one only if that column is reached.
from_reached_has :
    (node : Pair) (edge : LineageEdge) (reached : List Pair)
    → goes_from edge node ≡ true
    → has_pair node reached ≡ false
    → from_reached edge reached ≡ false
unfolding from_reached goes_from is_text has_pair
from_reached_has node edge [] h k = refl
from_reached_has node edge (r ∷ reached) h k = elim (Option-cases edge.source_field) [
  | inl e ↦ ground (arith, e, h)
  | inr (f, e) ↦ ground (
    arith,
    e,
    h,
    k,
    from_reached_has node edge reached,
    str_eq_iff edge.source_urn node.0,
    str_eq_iff edge.source_urn r.0,
    str_eq_iff node.0 r.0,
    str_eq_iff f node.1,
    str_eq_iff f r.1,
    str_eq_iff node.1 r.1,
  )
]

from_reached_more :
    (edge : LineageEdge) (node : Pair) (reached : List Pair)
    → from_reached edge (node ∷ reached) ≡ (goes_from edge node || from_reached edge reached)
unfolding from_reached
from_reached_more edge node reached = refl

-- Expanding a new column pushes no more than the edges that it explores.
pub push_targets_measure :
    (node : Pair) (edges : List LineageEdge) (queue reached : List Pair)
    → has_pair node reached ≡ false
    → length (push_targets node edges queue) + unexplored edges (node ∷ reached)
      ≤ length queue + unexplored edges reached
unfolding push_targets unexplored
push_targets_measure node [] queue reached h = omega arith
push_targets_measure node (edge ∷ edges) queue reached h = elim (Bool-cases (goes_from edge node)) [
  | inl e ↦ ground (
    arith,
    e,
    push_targets_measure node edges (push_target edge queue) reached h,
    pushed_at_most edge queue,
    from_reached_has node edge reached e h,
    from_reached_more edge node reached,
  )
  | inr e ↦ ground (
    arith,
    e,
    push_targets_measure node edges queue reached h,
    from_reached_more edge node reached,
  )
]
