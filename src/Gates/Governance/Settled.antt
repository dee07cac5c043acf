-- ===== src/Gates/Governance/Settled.antt =====
-- What the governance gate (src/sidq/gates/governance.py) reports, and what its silence means.
use sidq.Prelude.{
  String, str_eq, Bool, true, false, ◌&&◌, Option, none, some, List, [], ◌∷◌, ◌++◌, any, All,
  All-map, any-append, any-perm, if_known, ◌≡◌, arith, str_eq_refl,
}
use mathlib.Core.List.{Perm}
use sidq.Models.{TouchedAsset, Evidence, DatasetInfo}
use sidq.Catalog.Checks.Columns.{is_empty_list}
use sidq.Gates.Graph.{Reply, answered, failed, graph_unavailable, Told}
use sidq.Gates.Governance.{
  unowned_asset, check_owners, upstreams, deprecated_upstream, unread, check_upstream,
}

-- The evidence of the kind is there.
unfoldable pub Has : List Evidence → String → String → Type 0
Has evidence kind subject =
    any (λ (e : Evidence). str_eq e.kind kind && str_eq e.subject subject) evidence ≡ true

pub Has-first : (e : Evidence) (rest : List Evidence) → Has (e ∷ rest) e.kind e.subject
unfolding Has
Has-first e rest = ground (arith, str_eq_refl e.kind, str_eq_refl e.subject)

pub Has-left : (xs ys : List Evidence) (k s : String) → Has xs k s → Has (xs ++ ys) k s
unfolding Has
Has-left xs ys k s h =
    ground (arith, h, any-append (λ (e : Evidence). str_eq e.kind k && str_eq e.subject s) xs ys)

pub Has-right : (xs ys : List Evidence) (k s : String) → Has ys k s → Has (xs ++ ys) k s
unfolding Has
Has-right xs ys k s h =
    ground (arith, h, any-append (λ (e : Evidence). str_eq e.kind k && str_eq e.subject s) xs ys)

pub Has-perm : {xs ys : List Evidence} → Perm ys xs → (k s : String) → Has xs k s → Has ys k s
unfolding Has
Has-perm p k s h =
    ground (arith, h, any-perm (λ (e : Evidence). str_eq e.kind k && str_eq e.subject s) p)

unfoldable pub is_unowned : Option DatasetInfo → Bool
is_unowned none = false
is_unowned (some info) = is_empty_list info.owners

unfoldable pub is_deprecated : Option DatasetInfo → Bool
is_deprecated none = false
is_deprecated (some info) = info.deprecated

module _ (Shown : String → Option DatasetInfo → Type 0) (Broken : String → String → Type 0) where
  -- What each piece of evidence rests on.
  pub data Rests : Evidence → Type 0 where
    on_failure : (urn error : String) → Broken urn error → Rests (graph_unavailable urn error)
    on_owners :
        (urn : String) (info : Option DatasetInfo)
        → Shown urn info
        → is_unowned info ≡ true
        → Rests (unowned_asset urn)
    on_upstream :
        (asset : TouchedAsset) (urn : String) (info : Option DatasetInfo)
        → Shown urn info
        → is_deprecated info ≡ true
        → Rests (deprecated_upstream asset urn)

  -- A dataset could not be read, which is reported, or was read, and what was found is reported.
  pub data Settled (evidence : List Evidence) (kind : String) (finding : Option DatasetInfo → Bool)
      (urn : String) : Type 0 where
    could_not :
        (error : String)
        → Broken urn error
        → Has evidence "graph_unavailable" urn
        → Settled evidence kind finding urn
    could :
        (info : Option DatasetInfo)
        → Shown urn info
        → (finding info ≡ true → Has evidence kind urn)
        → Settled evidence kind finding urn

  unfoldable pub UpstreamSettled : List Evidence → String → Type 0
  UpstreamSettled evidence urn = Settled evidence "deprecated_upstream" is_deprecated urn

  pub widen :
      (xs ys : List Evidence)
      → ((k s : String) → Has xs k s → Has ys k s)
      → (kind : String) (finding : Option DatasetInfo → Bool) (urn : String)
      → Settled xs kind finding urn
      → Settled ys kind finding urn
  widen xs ys f kind finding urn (could_not error b h) = could_not error b (f _ _ h)
  widen xs ys f kind finding urn (could info s h) = could info s (λ e. f _ _ (h e))

  pub unread-Rests :
      (urn : String) (reply : Reply (Option DatasetInfo))
      → Told Shown Broken urn reply
      → All Rests (unread urn reply)
  unfolding unread
  unread-Rests urn (failed error) t = (on_failure urn error t, tt)
  unread-Rests urn (answered info) t = tt

  pub check_upstream-Rests :
      (asset : TouchedAsset) (urn : String) (reply : Reply (Option DatasetInfo))
      → Told Shown Broken urn reply
      → All Rests (check_upstream asset urn reply)
  unfolding check_upstream is_deprecated
  check_upstream-Rests asset urn (failed error) t = tt
  check_upstream-Rests asset urn (answered none) t = tt
  check_upstream-Rests asset urn (answered (some info)) t =
      if_known (All Rests) info.deprecated _ _ (λ e. (on_upstream asset urn (some info) t e, tt))
        (λ e. tt)

  pub check_owners-Rests :
      (urn : String) (info : Option DatasetInfo)
      → Shown urn info
      → All Rests (check_owners urn info)
  unfolding check_owners is_unowned
  check_owners-Rests urn none t = tt
  check_owners-Rests urn (some info) t =
      if_known (All Rests) (is_empty_list info.owners) _ _
        (λ e. (on_owners urn (some info) t e, tt)) (λ e. tt)

  -- The upstream is settled by its own evidence.
  pub upstream-Settled :
      (asset : TouchedAsset) (urn : String) (reply : Reply (Option DatasetInfo))
      → Told Shown Broken urn reply
      → UpstreamSettled (unread urn reply ++ check_upstream asset urn reply) urn
  unfolding unread check_upstream UpstreamSettled is_deprecated deprecated_upstream
      graph_unavailable
  upstream-Settled asset urn (failed error) t =
      could_not error t (Has-first (graph_unavailable urn error) [])
  upstream-Settled asset urn (answered none) t = could none t (λ e. cc)
  upstream-Settled asset urn (answered (some info)) t =
      could (some info) t (λ e. rw e (Has-first (deprecated_upstream asset urn) []))

  pub owners_known :
      (urn : String) (info : Option DatasetInfo)
      → is_unowned info ≡ true
      → Has (check_owners urn info) "unowned_asset" urn
  unfolding check_owners is_unowned unowned_asset
  owners_known urn none e = cc
  owners_known urn (some info) e = rw e (Has-first (unowned_asset urn) [])

  -- So is the asset, and, where it was read, all its upstreams.
  pub data AssetSettled (evidence : List Evidence) (asset : TouchedAsset) : Type 0 where
    asset_unread :
        (error : String)
        → Broken asset.urn error
        → Has evidence "graph_unavailable" asset.urn
        → AssetSettled evidence asset
    asset_read :
        (info : Option DatasetInfo)
        → Shown asset.urn info
        → (is_unowned info ≡ true → Has evidence "unowned_asset" asset.urn)
        → All (UpstreamSettled evidence) (upstreams asset)
        → AssetSettled evidence asset

  pub widen_asset :
      (xs ys : List Evidence)
      → ((k s : String) → Has xs k s → Has ys k s)
      → (asset : TouchedAsset) → AssetSettled xs asset
      → AssetSettled ys asset
  unfolding UpstreamSettled
  widen_asset xs ys f asset (asset_unread error b h) = asset_unread error b (f _ _ h)
  widen_asset xs ys f asset (asset_read info s o us) =
      asset_read info s (λ e. f _ _ (o e))
        (All-map _ _ (upstreams asset) (λ u h. widen xs ys f _ _ u h) us)
