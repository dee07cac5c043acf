-- ===== src/Gates/Schema/Stated.antt =====
-- What the evidence of the schema gate (src/sidq/gates/schema.py) rests on.
use sidq.Prelude.{
  String, false, Option, none, some, List, [], ◌∷◌, All, All-append, Bool-cases, ◌≡◌, refl, inl,
  inr,
}
use sidq.Prelude.Pairs.{Pair}
use sidq.Prelude.Sets.{member}
use sidq.Models.{TouchedAsset, Evidence, SchemaField, DatasetInfo}
use sidq.Gates.Graph.{
  Reply, answered, failed, GraphClient, Cache, cached-Told, graph_unavailable, Says, Told, Holds,
}
use sidq.Gates.Schema.{
  typed_path, unknown_dataset, unknown_field, type_mismatch, field_at, compatible, check_type,
  check_found, check_field, check_reply, check_all,
}

module _ (strip lower : String → String) (Shown : String → Option DatasetInfo → Type 0)
    (Broken : String → String → Type 0) (change : List TouchedAsset) where
  -- What each piece of evidence rests on.
  pub data Stated : Evidence → Type 0 where
    unread : (urn error : String) → Broken urn error → Stated (graph_unavailable urn error)
    absent : (reference : Pair) → Shown reference.0 none → Stated (unknown_dataset change reference)
    no_field :
        (urn path : String) (info : DatasetInfo)
        → Shown urn (some info)
        → field_at path info.fields ≡ none
        → Stated (unknown_field urn path)
    other_type :
        (urn path expected : String) (info : DatasetInfo) (f : SchemaField)
        → Shown urn (some info)
        → field_at path info.fields ≡ some f
        → compatible strip lower expected f.native_type ≡ false
        → Stated (type_mismatch urn path expected f.native_type)

  check_type-Stated :
      (urn path : String) (expected : Option String) (info : DatasetInfo) (f : SchemaField)
      → Shown urn (some info)
      → field_at path info.fields ≡ some f
      → All Stated (check_type strip lower urn path expected f)
  unfolding check_type
  check_type-Stated urn path none info f s h = tt
  check_type-Stated urn path (some expected) info f s h =
      elim (Bool-cases (compatible strip lower expected f.native_type)) [
        | inl e ↦ rw e tt
        | inr e ↦ rw e (other_type urn path expected info f s h e, tt)
      ]

  check_field-Stated :
      (reference : Pair) (info : DatasetInfo)
      → Shown reference.0 (some info)
      → All Stated (check_field strip lower reference info)
  unfolding check_field check_found
  check_field-Stated reference info s =
      let typed = typed_path reference.1 in
      elim (field_at typed.0 info.fields)
          as (λ found.
            field_at typed.0 info.fields ≡ found
            → All Stated (check_found strip lower reference.0 typed found)) [
              | none ↦ λ e. (no_field reference.0 typed.0 info s e, tt)
              | some f ↦ λ e. check_type-Stated reference.0 typed.0 typed.1 info f s e
            ]
        refl

  check_reply-Stated :
      (reference : Pair) (failures : List String) (reply : Reply (Option DatasetInfo))
      → Told Shown Broken reference.0 reply
      → All Stated (check_reply strip lower change reference failures reply).0
  unfolding check_reply
  check_reply-Stated reference failures (failed error) t =
      elim (Bool-cases (member reference.0 failures)) [
        | inl e ↦ rw e tt
        | inr e ↦ rw e (unread reference.0 error t, tt)
      ]
  check_reply-Stated reference failures (answered none) t = (absent reference t, tt)
  check_reply-Stated reference failures (answered (some info)) t =
      check_field-Stated reference info t

  module _ {W : Type 0} (graph : GraphClient W) (says : Says graph Shown Broken) where
    pub check_all-Stated :
        (rest : List Pair) (cache : Cache) (failures : List String) (w : W)
        → Holds Shown cache
        → All Stated (check_all strip lower graph change rest cache failures w).0
    unfolding check_all
    check_all-Stated [] cache failures w h = tt
    check_all-Stated (reference ∷ rest) cache failures w h =
        let (t, k) = cached-Told Shown Broken graph says reference.0 cache w h in
        All-append Stated _ _ (check_reply-Stated reference failures _ t)
          (check_all-Stated rest _ _ _ k)
