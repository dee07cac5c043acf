-- ===== src/Repair/Simulate/Frame.antt =====
-- What a simulated repair leaves as it is.
use sidq.Prelude.{
  String, str_eq, str_le, Bool, true, false, ◌||◌, Option, List, [], ◌∷◌, ◌++◌, map, any-perm,
  Bool-cases, arith, ◌≡◌, refl, inl, inr, ◌∙◌, ◌⊎◌, if◌then◌else◌,
}
use sidq.Prelude.Sets.{member, distinct, member-distinct, member-append}
use sidq.Prelude.Sort.{sorted, sorted-perm}
use sidq.Catalog.Snapshot.{CatalogField, CatalogEntity, CatalogSnapshot}
use sidq.Catalog.Checks.Columns.{is_empty_list}
use sidq.Repair.Proposals.{Proposal, listed, targets}
use sidq.Repair.Simulate.{
  added, columns_of, named, has_none, written_tags, tag_field, tag_asset, tag_columns,
  apply_to_entity, simulate_entity, simulate,
}

-- The texts of `old` and some of `values`.
unfoldable pub OnlyAdds : List String → List String → List String → Type 0
OnlyAdds values old new =
    (m : String)
    → (member m old ≡ true → member m new ≡ true)
      × (member m new ≡ true → (member m old || member m values) ≡ true)

abbrev pub Pairwise {ℓ} : {A : Type ℓ} → (A → A → Type 0) → List A → List A → Type 0
Pairwise R [] [] = Unit
Pairwise R (x ∷ xs) (y ∷ ys) = R x y × Pairwise R xs ys
Pairwise R xs ys = ⊥

-- A column with more markers.
unfoldable pub Marked : List String → CatalogField → CatalogField → Type 0
unfolding OnlyAdds
Marked values f g =
    (g.path ≡ f.path) × (g.description ≡ f.description) × OnlyAdds values f.tags g.tags

-- An asset with more markers and owners.
unfoldable pub Grown : Proposal → CatalogEntity → CatalogEntity → Type 0
unfolding OnlyAdds Marked
Grown p e g =
    (g.urn ≡ e.urn)
    × (g.kind ≡ e.kind)
    × (g.description ≡ e.description)
    × (g.deprecated ≡ e.deprecated)
    × (g.live ≡ e.live)
    × (g.schema_available ≡ e.schema_available)
    × Pairwise (Marked (written_tags p)) e.fields g.fields
    × OnlyAdds (written_tags p) e.tags g.tags
    × OnlyAdds (listed "owner_urns" p.arguments) e.owners g.owners

-- What holds of both branches.
if_holds {ℓ κ} :
    {A : Type ℓ} (P : A → Type κ) (b : Bool) (x y : A) → P x → P y → P (if b then x else y)
if_holds P true x y h k = h
if_holds P false x y h k = k

added-OnlyAdds : (values old : List String) → OnlyAdds values old (added old values)
unfolding OnlyAdds added
added-OnlyAdds values old m =
    let e : member m (sorted str_le (distinct (old ++ values)))
        ≡ (member m old || member m values) =
      unfold member in
      any-perm (str_eq m) (sorted-perm str_le (distinct (old ++ values)))
      ∙ member-distinct m (old ++ values)
      ∙ member-append m old values in
    (λ h. ground (arith, e, h), λ h. ground (arith, e, h))

same-OnlyAdds : (values old : List String) → OnlyAdds values old old
unfolding OnlyAdds
same-OnlyAdds values old m = (λ h. h, λ h. ground (arith, h))

same-Marked : (values : List String) (fs : List CatalogField) → Pairwise (Marked values) fs fs
unfolding Marked
same-Marked values [] = tt
same-Marked values (f ∷ fs) = ((refl, refl, same-OnlyAdds values f.tags), same-Marked values fs)

tag_field-Marked :
    (columns values : List String) (fs : List CatalogField)
    → Pairwise (Marked values) fs (map (tag_field columns values) fs)
unfolding tag_field Marked
tag_field-Marked columns values [] = tt
tag_field-Marked columns values (f ∷ fs) = (
  if_holds (Marked values f) (member f.path columns) (record f { tags = added f.tags values }) f
      (refl, refl, added-OnlyAdds values f.tags) (refl, refl, same-OnlyAdds values f.tags),
  tag_field-Marked columns values fs,
)

same-Grown : (p : Proposal) (e : CatalogEntity) → Grown p e e
unfolding Grown
same-Grown p e = (
  refl,
  refl,
  refl,
  refl,
  refl,
  refl,
  same-Marked (written_tags p) e.fields,
  same-OnlyAdds (written_tags p) e.tags,
  same-OnlyAdds (listed "owner_urns" p.arguments) e.owners,
)

-- Both steps of a repair by tags.
tagged-Grown :
    (p : Proposal) (columns : List (Option String)) (e : CatalogEntity)
    → Grown p e
        (tag_columns (named columns) (written_tags p) (tag_asset columns (written_tags p) e))
unfolding Grown tag_columns tag_asset
tagged-Grown p columns e =
    let tags = written_tags p in
    let same = same-Marked tags e.fields in
    let marked = tag_field-Marked (named columns) tags e.fields in
    let old = same-OnlyAdds tags e.tags in
    let new = added-OnlyAdds tags e.tags in
    let owners = same-OnlyAdds (listed "owner_urns" p.arguments) e.owners in
    let whole : CatalogEntity = record e { tags = added e.tags tags } in
    if_holds (λ g. Grown p e (tag_columns (named columns) tags g)) (has_none columns) whole e
      (if_holds (Grown p e) (is_empty_list (named columns)) whole
        (record whole { fields = map (tag_field (named columns) tags) e.fields })
        (refl, refl, refl, refl, refl, refl, same, new, owners)
        (refl, refl, refl, refl, refl, refl, marked, new, owners))
      (if_holds (Grown p e) (is_empty_list (named columns)) e
        (record e { fields = map (tag_field (named columns) tags) e.fields })
        (refl, refl, refl, refl, refl, refl, same, old, owners)
        (refl, refl, refl, refl, refl, refl, marked, old, owners))

owned-Grown :
    (p : Proposal) (e : CatalogEntity)
    → Grown p e (record e { owners = added e.owners (listed "owner_urns" p.arguments) })
unfolding Grown
owned-Grown p e = (
  refl,
  refl,
  refl,
  refl,
  refl,
  refl,
  same-Marked (written_tags p) e.fields,
  same-OnlyAdds (written_tags p) e.tags,
  added-OnlyAdds (listed "owner_urns" p.arguments) e.owners,
)

apply_to_entity-Grown :
    (p : Proposal) (columns : List (Option String)) (e : CatalogEntity)
    → Grown p e (apply_to_entity p columns e)
unfolding apply_to_entity
apply_to_entity-Grown p columns e =
    if_holds (Grown p e) (str_eq p.tool "add_owners") _ _ (owned-Grown p e) (
      if_holds (Grown p e) (str_eq p.tool "add_tags" || str_eq p.tool "add_terms") _ _
        (tagged-Grown p columns e) (same-Grown p e))

-- The asset is among the targets.
unfoldable pub Targeted : Proposal → CatalogEntity → Type 0
Targeted p e = is_empty_list (columns_of e.urn (targets p)) ≡ false

-- An asset after a repair, against the same before.
unfoldable pub Simulated : Proposal → CatalogEntity → CatalogEntity → Type 0
unfolding Grown Targeted
Simulated p e g = Grown p e g × ((g ≡ e) ⊎ Targeted p e)

simulate_entity-Simulated : (p : Proposal) (e : CatalogEntity) → Simulated p e (simulate_entity p e)
unfolding Simulated Targeted simulate_entity
simulate_entity-Simulated p e = elim (Bool-cases (is_empty_list (columns_of e.urn (targets p)))) [
  | inl k ↦ rw (k, simulate_entity) (same-Grown p e, inl refl)
  | inr k ↦ (
    if_holds (Grown p e) (is_empty_list (columns_of e.urn (targets p))) e _ (same-Grown p e)
        (apply_to_entity-Grown p (columns_of e.urn (targets p)) e),
    inr k,
  )
]

all-Simulated :
    (p : Proposal) (es : List CatalogEntity)
    → Pairwise (Simulated p) es (map (simulate_entity p) es)
all-Simulated p [] = tt
all-Simulated p (e ∷ es) = (simulate_entity-Simulated p e, all-Simulated p es)

-- A simulated repair leaves the edges and the marks of completeness of the catalog, and has the same
-- assets in the same order. An asset that it does not target is the same; one that it targets keeps
-- its description, its kind, its columns and all its markers and owners, and gains none but those
-- that the proposal writes.
pub simulate-Simulated :
    (snapshot : CatalogSnapshot) (p : Proposal)
    → Pairwise (Simulated p) snapshot.entities (simulate snapshot p).entities
      × ((simulate snapshot p).edges ≡ snapshot.edges)
      × ((simulate snapshot p).entities_complete ≡ snapshot.entities_complete)
      × ((simulate snapshot p).field_lineage_resolved ≡ snapshot.field_lineage_resolved)
unfolding simulate
simulate-Simulated snapshot p = (all-Simulated p snapshot.entities, refl, refl, refl)
