-- ===== src/Gates/Blast/Proven.antt =====
-- What a blast radius (src/sidq/gates/blast.py) rests on.
use sidq.Prelude.{
  ℕ, String, str_eq_iff, str_eq_of, true, false, Option, none, some, List, [], ◌∷◌, if◌then◌else◌,
  if_known, ◌≡◌, refl, arith, ◌⊎◌,
}
use sidq.Prelude.Sort.{sorted}
use sidq.Value.{Fields}
use sidq.Models.{TouchedAsset, Evidence}
use sidq.Gates.Graph.{
  Asks, throw, bind_rule, WhenAnswered, Reply, answered, failed, GraphClient, LineageResult,
  graph_unavailable, by_urn,
}
use sidq.Gates.Blast.Details.{Texts}
use sidq.Gates.Blast.Targets.{
  MapsTargets, maps_every_target-MapsTargets, MapsTargets-maps_every_target,
}
use sidq.Gates.Blast.Extended.{Covers, impact-Covers}
use sidq.Gates.Blast.{
  changed_column, is_proven, report, blast_radius, impact, measure, collect_all, collect,
}

-- What a change of a column takes: lineage of columns, which names columns of every asset in it and
-- of no other.
abbrev pub OfColumns : Option String → LineageResult → Type 0
OfColumns none result = Unit
OfColumns (some column) result =
    (result.granularity ≡ "column") × ((result.urns ≡ []) ⊎ MapsTargets result)

module _ {W : Type 0} (texts : Texts) (graph : GraphClient W) (depth : ℕ) where
  -- Evidence of an asset: a blast radius, after a call showed lineage that is complete and of the
  -- right kind, or that the catalog is unavailable.
  pub data Weighed (asset : TouchedAsset) : Evidence → Type 0 where
    measured :
        (w : W) (result : LineageResult) (detail : Fields)
        → (graph.get_downstream asset.urn depth (changed_column asset) w).0 ≡ answered result
        → result.complete ≡ true
        → OfColumns (changed_column asset) result
        → Covers texts graph depth result detail
        → Weighed asset (blast_radius asset.urn detail)
    unread :
        (w : W) (error : String)
        → (graph.get_downstream asset.urn depth (changed_column asset) w).0 ≡ failed error
        → Weighed asset (graph_unavailable asset.urn error)
    unproven :
        (w : W) (result : LineageResult)
        → (graph.get_downstream asset.urn depth (changed_column asset) w).0 ≡ answered result
        → ¬ ((result.complete ≡ true) × OfColumns (changed_column asset) result)
        → Weighed asset (graph_unavailable asset.urn "GraphResponseError")
    unmeasured :
        (w : W) (result : LineageResult) (error : String)
        → (graph.get_downstream asset.urn depth (changed_column asset) w).0 ≡ answered result
        → (impact texts graph depth asset.urn
            (changed_column asset)
            result
            (graph.get_downstream asset.urn depth (changed_column asset) w).1).0
          ≡ failed error
        → Weighed asset (graph_unavailable asset.urn error)

  pub data AllWeighed : List TouchedAsset → List Evidence → Type 0 where
    no_assets : AllWeighed [] []
    weighed :
        (asset : TouchedAsset) (e : Evidence) (change : List TouchedAsset)
        (evidence : List Evidence)
        → Weighed asset e
        → AllWeighed change evidence
        → AllWeighed (asset ∷ change) (e ∷ evidence)

  proven_complete :
      (column : Option String) (result : LineageResult)
      → is_proven column result ≡ true
      → (result.complete ≡ true) × OfColumns column result
  unfolding is_proven
  proven_complete none result h = (ground (arith, h), tt)
  proven_complete (some column) result h = (
    ground (arith, h),
    (
      (str_eq_iff result.granularity "column").0 (ground (arith, h)),
      maps_every_target-MapsTargets result (ground (arith, h)),
    ),
  )

  complete_proven :
      (column : Option String) (result : LineageResult)
      → (result.complete ≡ true) × OfColumns column result
      → is_proven column result ≡ true
  unfolding is_proven
  complete_proven none result h = ground (arith, h.0)
  complete_proven (some column) result h =
      ground (arith, h.0, str_eq_of h.1.0, MapsTargets-maps_every_target result h.1.1)

  -- The report of a reply.
  Fits : TouchedAsset → Reply Fields → Type 0
  Fits asset reply = Weighed asset (report asset.urn reply)

  unread-Fits :
      (asset : TouchedAsset) (w : W) (error : String)
      → (graph.get_downstream asset.urn depth (changed_column asset) w).0 ≡ failed error
      → Fits asset (failed error)
  unfolding Fits report
  unread-Fits asset w error e = unread w error e

  unproven-Fits :
      (asset : TouchedAsset) (w : W) (result : LineageResult)
      → (graph.get_downstream asset.urn depth (changed_column asset) w).0 ≡ answered result
      → is_proven (changed_column asset) result ≡ false
      → Fits asset (failed "GraphResponseError")
  unfolding Fits report
  unproven-Fits asset w result e p = unproven w result e (λ h.
      let q : false ≡ true = ground (arith, p, complete_proven (changed_column asset) result h) in
      cc)

  impact-Fits :
      (asset : TouchedAsset) (w : W) (result : LineageResult) (reply : Reply Fields)
      → (graph.get_downstream asset.urn depth (changed_column asset) w).0 ≡ answered result
      → is_proven (changed_column asset) result ≡ true
      → (impact texts graph depth asset.urn
          (changed_column asset)
          result
          (graph.get_downstream asset.urn depth (changed_column asset) w).1).0
        ≡ reply
      → WhenAnswered (Covers texts graph depth result) reply
      → Fits asset reply
  unfolding Fits report WhenAnswered
  impact-Fits asset w result (failed error) e p h c = unmeasured w result error e h
  impact-Fits asset w result (answered detail) e p h v =
      let (c, o) = proven_complete (changed_column asset) result p in
      measured w result detail e c o v

  measure-Fits : (asset : TouchedAsset) (w : W) → Fits asset (measure texts graph depth asset w).0
  unfolding measure
  measure-Fits asset w =
      let column = changed_column asset in
      bind_rule (Fits asset) (graph.get_downstream asset.urn depth column)
        (λ result.
          if is_proven column result
          then impact texts graph depth asset.urn column result
          else throw "GraphResponseError")
        w (λ error e. unread-Fits asset w error e)
        (λ result e.
          let after = (graph.get_downstream asset.urn depth column w).1 in
          if_known (λ (m : Asks W Fields). Fits asset (m after).0) (is_proven column result) _ _
            (λ p.
              impact-Fits asset w result (impact texts graph depth asset.urn column result after).0
                e p refl (impact-Covers texts graph depth asset.urn column result after))
            (λ p. unproven-Fits asset w result e p))

  all-Weighed :
      (change : List TouchedAsset) (w : W)
      → AllWeighed change (collect_all texts graph depth change w).0
  unfolding collect_all Fits
  all-Weighed [] w = no_assets
  all-Weighed (asset ∷ change) w =
      weighed asset _ change _ (measure-Fits asset w)
        (all-Weighed change (measure texts graph depth asset w).1)

  -- The blast gate gives one piece of evidence for each asset of the change, in the order of their
  -- URNs. It is a blast radius only if the catalog answered with lineage that is complete and, where
  -- one column changed, of columns, naming some column of each asset downstream and of no other;
  -- its detail then accounts for every asset of that lineage: a call for it failed or found nothing,
  -- and the detail has it as unreadable, or a call showed it, and the detail has it as critical if a
  -- tag of it holds the word. The gate says that the catalog is unavailable only if that call
  -- failed, its lineage is not so, or what follows it failed.
  pub collect-AllWeighed :
      (change : List TouchedAsset) (w : W)
      → AllWeighed (sorted by_urn change) (collect texts graph depth change w).0
  unfolding collect
  collect-AllWeighed change w = all-Weighed (sorted by_urn change) w
