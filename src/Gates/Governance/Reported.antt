-- ===== src/Gates/Governance/Reported.antt =====
-- The loops of the governance gate (src/sidq/gates/governance.py).
use sidq.Prelude.{
  String, str_eq, ◌&&◌, Option, List, [], ◌∷◌, ◌++◌, All, All-append, All-first, All-second,
  All-map, any-append, arith,
}
use sidq.Prelude.Sort.{sorted, sorted-All, sorted-perm}
use sidq.Value.{Fields}
use sidq.Models.{TouchedAsset, Evidence, DatasetInfo}
use sidq.Gates.Graph.{
  Reply, answered, failed, GraphClient, Cache, cached, cached-Told, nothing-Holds,
  graph_unavailable, Says, Told, Holds, by_urn,
}
use sidq.Gates.Governance.{
  check_owners, upstreams, unread, check_upstream, evidence_le, deprecated_upstreams, check_asset,
  collect_all, collect,
}
use sidq.Gates.Governance.Settled.{
  Has, Has-first, Has-left, Has-right, Has-perm, Rests, on_failure, UpstreamSettled, AssetSettled,
  asset_unread, asset_read, widen, widen_asset, unread-Rests, check_upstream-Rests,
  check_owners-Rests, upstream-Settled, owners_known,
}

Has-own :
    (u c us cs : List Evidence) (k s : String) → Has (u ++ c) k s → Has ((u ++ us) ++ (c ++ cs)) k s
unfolding Has
Has-own u c us cs k s h =
    let p = λ (e : Evidence). str_eq e.kind k && str_eq e.subject s in
    ground (
      arith,
      h,
      any-append p u c,
      any-append p u us,
      any-append p c cs,
      any-append p (u ++ us) (c ++ cs),
    )

Has-later :
    (u c us cs : List Evidence) (k s : String)
    → Has (us ++ cs) k s
    → Has ((u ++ us) ++ (c ++ cs)) k s
unfolding Has
Has-later u c us cs k s h =
    let p = λ (e : Evidence). str_eq e.kind k && str_eq e.subject s in
    ground (
      arith,
      h,
      any-append p us cs,
      any-append p u us,
      any-append p c cs,
      any-append p (u ++ us) (c ++ cs),
    )

module _ {W : Type 0} (graph : GraphClient W) (Shown : String → Option DatasetInfo → Type 0)
    (Broken : String → String → Type 0) (says : Says graph Shown Broken) where
  -- What the loop over the upstreams gives.
  upstreams-Settled :
      (asset : TouchedAsset) (us : List String) (cache : Cache) (w : W)
      → Holds Shown cache
      → let out = deprecated_upstreams graph asset us cache w in
        All (Rests Shown Broken) (out.0.0 ++ out.0.1)
        × All (UpstreamSettled Shown Broken (out.0.0 ++ out.0.1)) us
        × Holds Shown out.1.0
  unfolding deprecated_upstreams UpstreamSettled
  upstreams-Settled asset [] cache w h = (tt, tt, h)
  upstreams-Settled asset (u ∷ us) cache w h =
      let reply = (cached graph u cache w).0 in
      let kept = (cached graph u cache w).1 in
      let (t, k) = cached-Told Shown Broken graph says u cache w h in
      let later = (deprecated_upstreams graph asset us kept.0 kept.1).0 in
      let (r, s, k') = upstreams-Settled asset us kept.0 kept.1 k in
      (
        All-append (Rests Shown Broken) (unread u reply ++ later.0)
            (check_upstream asset u reply ++ later.1)
            (All-append (Rests Shown Broken) _ _ (unread-Rests Shown Broken u reply t)
              (All-first (Rests Shown Broken) later.0 later.1 r))
            (All-append (Rests Shown Broken) _ _ (check_upstream-Rests Shown Broken asset u reply t)
              (All-second (Rests Shown Broken) later.0 later.1 r)),
        (
          widen Shown Broken _ _
              (Has-own (unread u reply) (check_upstream asset u reply) later.0 later.1) _ _ u
              (upstream-Settled Shown Broken asset u reply t),
          All-map _ _ us
              (λ v g.
                widen Shown Broken _ _
                  (Has-later (unread u reply) (check_upstream asset u reply) later.0 later.1) _ _ v
                  g)
              s,
        ),
        k',
      )

  asset-Settled :
      (asset : TouchedAsset) (reply : Reply (Option DatasetInfo)) (cache : Cache) (w : W)
      → Told Shown Broken asset.urn reply
      → Holds Shown cache
      → let out = check_asset graph asset reply cache w in
        All (Rests Shown Broken) out.0 × AssetSettled Shown Broken out.0 asset × Holds Shown out.1.0
  unfolding check_asset graph_unavailable UpstreamSettled
  asset-Settled asset (failed error) cache w t h = (
    (on_failure asset.urn error t, tt),
    asset_unread error t (Has-first (graph_unavailable asset.urn error) []),
    h,
  )
  asset-Settled asset (answered info) cache w t h =
      let later = (deprecated_upstreams graph asset (upstreams asset) cache w).0 in
      let (r, s, k) = upstreams-Settled asset (upstreams asset) cache w h in
      (
        All-append (Rests Shown Broken) _ _ (check_owners-Rests Shown Broken asset.urn info t) r,
        asset_read info t (λ e. Has-left _ _ _ _ (owners_known Shown Broken asset.urn info e))
            (All-map _ _ (upstreams asset)
              (λ u g.
                widen Shown Broken (later.0 ++ later.1)
                  (check_owners asset.urn info ++ (later.0 ++ later.1))
                  (Has-right (check_owners asset.urn info) (later.0 ++ later.1)) _ _ u g)
              s),
        k,
      )

  all-Settled :
      (change : List TouchedAsset) (cache : Cache) (w : W)
      → Holds Shown cache
      → let out = collect_all graph change cache w in
        All (Rests Shown Broken) out.0 × All (AssetSettled Shown Broken out.0) change
  unfolding collect_all
  all-Settled [] cache w h = (tt, tt)
  all-Settled (asset ∷ change) cache w h =
      let reply = (cached graph asset.urn cache w).0 in
      let kept = (cached graph asset.urn cache w).1 in
      let (t, k) = cached-Told Shown Broken graph says asset.urn cache w h in
      let own = check_asset graph asset reply kept.0 kept.1 in
      let (r, s, k') = asset-Settled asset reply kept.0 kept.1 t k in
      let later = (collect_all graph change own.1.0 own.1.1).0 in
      let (r', s') = all-Settled change own.1.0 own.1.1 k' in
      (
        All-append (Rests Shown Broken) own.0 later r r',
        (
          widen_asset Shown Broken own.0 (own.0 ++ later) (Has-left own.0 later) asset s,
          All-map _ _ change
              (λ a g. widen_asset Shown Broken later (own.0 ++ later) (Has-right own.0 later) a g)
              s',
        ),
      )

  -- Whatever the catalog answers, each piece of evidence of the governance gate rests on what a
  -- call showed or how it failed. Each asset of the change either could not be read, which is
  -- reported, or was read, and it is reported if it has no owner; then each dataset that it refers
  -- to could not be read, which is reported, or was read, and it is reported if it is deprecated.
  pub collect-AssetSettled :
      (repr : Fields → String) (change : List TouchedAsset) (w : W)
      → All (Rests Shown Broken) (collect graph repr change w).0
        × All (AssetSettled Shown Broken (collect graph repr change w).0) (sorted by_urn change)
  unfolding collect
  collect-AssetSettled repr change w =
      let ranked = sorted by_urn change in
      let (r, s) = all-Settled ranked [] w (nothing-Holds Shown Broken) in
      let found = (collect_all graph ranked [] w).0 in
      (
        sorted-All (evidence_le repr) (Rests Shown Broken) found r,
        All-map _ _ ranked
            (λ a g.
              widen_asset Shown Broken found (sorted (evidence_le repr) found)
                (Has-perm (sorted-perm (evidence_le repr) found)) a g)
            s,
      )
