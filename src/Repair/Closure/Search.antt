-- ===== src/Repair/Closure/Search.antt =====
-- The search of `_closure`, against the flows along the lineage.
use sidq.Prelude.{
  ℕ, suc, ◌+◌, ◌≤◌, true, false, ◌||◌, List, [], ◌∷◌, zero, length, arith, Bool-cases, ◌≡◌, inl,
  inr, subst, sym,
}
use sidq.Prelude.Pairs.{Pair, pair_eq, has_pair, pair_eq_of, pair_eq_refl}
use sidq.Catalog.Snapshot.{LineageEdge}
use sidq.Repair.Closure.{push_targets, reach_from}
use sidq.Repair.Closure.Flows.{feeds, Flows, unexplored, push_targets_lem, push_targets_measure}

-- All that the search holds flows from the start.
module _ (edges : List LineageEdge) (start : Pair) where
  unfoldable pub AllFlow : List Pair → Type 0
  AllFlow pairs = (c : Pair) → has_pair c pairs ≡ true → Flows edges start c

  push_targets-AllFlow :
      (node : Pair) (queue : List Pair)
      → Flows edges start node
      → AllFlow queue
      → AllFlow (push_targets node edges queue)
  unfolding AllFlow
  push_targets-AllFlow node queue hn hq c h = elim (Bool-cases (has_pair c queue)) [
    | inl e ↦ hq c e
    | inr e ↦ Flows.along node c hn (ground (arith, e, h, push_targets_lem c node edges queue))
  ]

  cons-AllFlow :
      (node : Pair) (pairs : List Pair)
      → Flows edges start node
      → AllFlow pairs
      → AllFlow (node ∷ pairs)
  unfolding AllFlow has_pair
  cons-AllFlow node pairs hn hp c h = elim (Bool-cases (pair_eq c node)) [
    | inl e ↦ subst (Flows edges start) (sym (pair_eq_of c node e)) hn
    | inr e ↦ hp c (ground (arith, e, h))
  ]

  tail-AllFlow : (node : Pair) (pairs : List Pair) → AllFlow (node ∷ pairs) → AllFlow pairs
  unfolding AllFlow has_pair
  tail-AllFlow node pairs h c k = h c (ground (arith, k))

  head-AllFlow : (node : Pair) (pairs : List Pair) → AllFlow (node ∷ pairs) → Flows edges start node
  unfolding AllFlow has_pair
  head-AllFlow node pairs h = h node (ground (arith, pair_eq_refl node))

  pub reach_from-AllFlow :
      (fuel : ℕ) (queue reached : List Pair)
      → AllFlow queue
      → AllFlow reached
      → AllFlow (reach_from fuel edges queue reached)
  unfolding reach_from
  reach_from-AllFlow zero queue reached hq hr = hr
  reach_from-AllFlow (suc fuel) [] reached hq hr = hr
  reach_from-AllFlow (suc fuel) (node ∷ queue) reached hq hr =
      elim (Bool-cases (has_pair node reached)) [
        | inl e ↦
            rw (e, reach_from)
              (reach_from-AllFlow fuel queue reached (tail-AllFlow node queue hq) hr)
        | inr e ↦
            rw (e, reach_from)
              (reach_from-AllFlow fuel (push_targets node edges queue) (node ∷ reached)
                (push_targets-AllFlow node queue (head-AllFlow node queue hq)
                  (tail-AllFlow node queue hq))
                (cons-AllFlow node reached (head-AllFlow node queue hq) hr))
      ]

  -- Where a reached column leads is reached or waits in the queue.
  unfoldable pub Closed : List Pair → List Pair → Type 0
  Closed queue reached =
      (b c : Pair)
      → has_pair b reached ≡ true
      → feeds edges b c ≡ true
      → (has_pair c reached || has_pair c queue) ≡ true

  skip-Closed :
      (node : Pair) (queue reached : List Pair)
      → has_pair node reached ≡ true
      → Closed (node ∷ queue) reached
      → Closed queue reached
  unfolding Closed has_pair
  skip-Closed node queue reached e h b c hb hf = elim (Bool-cases (pair_eq c node)) [
    | inl p ↦ ground (arith, subst (λ d. has_pair d reached ≡ true) (sym (pair_eq_of c node p)) e)
    | inr p ↦ ground (arith, p, h b c hb hf)
  ]

  take-Closed :
      (node : Pair) (queue reached : List Pair)
      → Closed (node ∷ queue) reached
      → Closed (push_targets node edges queue) (node ∷ reached)
  unfolding Closed has_pair
  take-Closed node queue reached h b c hb hf = elim (Bool-cases (pair_eq b node)) [
    | inl p ↦ ground (
      arith,
      subst (λ d. feeds edges d c ≡ true) (pair_eq_of b node p) hf,
      push_targets_lem c node edges queue,
    )
    | inr p ↦ ground (arith, p, hb, h b c, hf, push_targets_lem c node edges queue)
  ]

  nothing_queued :
      (reached : List Pair) (c : Pair)
      → (has_pair c reached || has_pair c []) ≡ true
      → has_pair c reached ≡ true
  unfolding has_pair
  nothing_queued reached c h = ground (arith, h)

  skipped :
      (node : Pair) (queue reached : List Pair)
      → has_pair node reached ≡ true
      → (c : Pair) → (has_pair c reached || has_pair c (node ∷ queue)) ≡ true
      → (has_pair c reached || has_pair c queue) ≡ true
  unfolding has_pair
  skipped node queue reached e c h = elim (Bool-cases (pair_eq c node)) [
    | inl p ↦ ground (arith, subst (λ d. has_pair d reached ≡ true) (sym (pair_eq_of c node p)) e)
    | inr p ↦ ground (arith, p, h)
  ]

  taken :
      (node : Pair) (queue reached : List Pair) (c : Pair)
      → (has_pair c reached || has_pair c (node ∷ queue)) ≡ true
      → (has_pair c (node ∷ reached) || has_pair c (push_targets node edges queue)) ≡ true
  unfolding has_pair
  taken node queue reached c h = ground (arith, h, push_targets_lem c node edges queue)

  -- With enough fuel the result is closed under the edges, and keeps what was there.
  pub reach_from_all :
      (fuel : ℕ) (queue reached : List Pair)
      → length queue + unexplored edges reached ≤ fuel
      → Closed queue reached
      → Closed [] (reach_from fuel edges queue reached)
        × ((c : Pair)
            → (has_pair c reached || has_pair c queue) ≡ true
            → has_pair c (reach_from fuel edges queue reached) ≡ true)
  unfolding reach_from
  reach_from_all zero [] reached hm hc = (hc, nothing_queued reached)
  reach_from_all zero (node ∷ queue) reached hm hc =
      let q : true ≡ false = ground (arith, hm) in (cc, cc)
  reach_from_all (suc fuel) [] reached hm hc = (hc, nothing_queued reached)
  reach_from_all (suc fuel) (node ∷ queue) reached hm hc =
      elim (Bool-cases (has_pair node reached)) [
        | inl e ↦
            rw (e, reach_from)
              (let ih =
                  reach_from_all fuel queue reached (omega (arith, hm))
                    (skip-Closed node queue reached e hc) in
                (ih.0, λ c k. ih.1 c (skipped node queue reached e c k)))
        | inr e ↦
            rw (e, reach_from)
              (let ih =
                  reach_from_all fuel (push_targets node edges queue) (node ∷ reached)
                    (omega (arith, hm, push_targets_measure node edges queue reached e))
                    (take-Closed node queue reached hc) in
                (ih.0, λ c k. ih.1 c (taken node queue reached c k)))
      ]
