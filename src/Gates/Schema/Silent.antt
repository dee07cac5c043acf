-- ===== src/Gates/Schema/Silent.antt =====
-- What the silence of the schema gate (src/sidq/gates/schema.py) means.
use sidq.Prelude.{
  String, str_eq, Bool, true, ◌||◌, Option, none, some, List, [], ◌∷◌, ◌++◌, any, All, any-append,
  append_assoc, append-nil, any-weaken, if_known, Bool-cases, ◌≡◌, refl, subst, sym, ◌∙◌, ◌⊎◌, inl,
  inr, arith, str_eq_refl, str_eq_iff, str_eq_of,
}
use sidq.Prelude.Pairs.{
  Pair, pair_le, distinct_pairs, has_pair-perm, has_pair-distinct, All-has_pair, All_from_pairs,
}
use sidq.Prelude.Sort.{sorted-perm}
use sidq.Prelude.Sets.{member}
use sidq.Models.{TouchedAsset, Evidence, SchemaField, DatasetInfo}
use sidq.Gates.Graph.{
  Reply, answered, failed, GraphClient, Cache, cached, cached-Told, nothing-Holds,
  graph_unavailable, Says, Told, Holds,
}
use sidq.Gates.Schema.{
  all_references, references, typed_path, unknown_dataset, unknown_field, type_mismatch, field_at,
  field_subject, compatible, check_type, check_found, check_field, check_reply, check_all, collect,
}
use sidq.Gates.Schema.Stated.{Stated, check_all-Stated}

module _ (strip lower : String → String) (Shown : String → Option DatasetInfo → Type 0)
    (Broken : String → String → Type 0) (change : List TouchedAsset) where
  -- A type that a reference expects is that of the field.
  abbrev pub HasType : Option String → SchemaField → Type 0
  HasType none f = Unit
  HasType (some expected) f = compatible strip lower expected f.native_type ≡ true

  -- The catalog has shown the dataset, with the field, of the type that is expected.
  pub record IsResolved (reference : Pair) : Type 0 where
    pub info : DatasetInfo
    pub shown : Shown reference.0 (some info)
    pub found : SchemaField
    pub has_field : field_at (typed_path reference.1).0 info.fields ≡ some found
    pub has_type : HasType (typed_path reference.1).1 found

  -- The evidence is about the dataset or the field of the reference.
  unfoldable pub about : Pair → Evidence → Bool
  about reference e =
      str_eq e.subject reference.0
      || str_eq e.subject (field_subject reference.0 (typed_path reference.1).0)

  unfoldable pub Addressed : List Evidence → Pair → Type 0
  Addressed evidence reference = IsResolved reference ⊎ (any (about reference) evidence ≡ true)

  Reported : List Evidence → Pair → Type 0
  Reported evidence reference = any (about reference) evidence ≡ true

  check_type-HasType :
      (reference : Pair) (expected : Option String) (f : SchemaField)
      → HasType expected f
        ⊎ Reported
            (check_type strip lower reference.0 (typed_path reference.1).0 expected f)
            reference
  unfolding check_type about Reported type_mismatch
  check_type-HasType reference none f = inl tt
  check_type-HasType reference (some expected) f =
      elim (Bool-cases (compatible strip lower expected f.native_type)) [
        | inl e ↦ inl e
        | inr e ↦
            inr (
              ground (arith, e, str_eq_refl (field_subject reference.0 (typed_path reference.1).0)))
      ]

  check_field-IsResolved :
      (reference : Pair) (info : DatasetInfo)
      → Shown reference.0 (some info)
      → IsResolved reference ⊎ Reported (check_field strip lower reference info) reference
  unfolding check_field check_found about Reported unknown_field
  check_field-IsResolved reference info s =
      let typed = typed_path reference.1 in
      elim (field_at typed.0 info.fields)
          as (λ found.
            field_at typed.0 info.fields ≡ found
            → IsResolved reference
              ⊎ Reported (check_found strip lower reference.0 typed found) reference) [
                | none ↦ λ e. inr (ground (arith, str_eq_refl (field_subject reference.0 typed.0)))
                | some f ↦ λ e. elim (check_type-HasType reference typed.1 f) [
                  | inl h ↦
                      inl
                        (record { info = info; shown = s; found = f; has_field = e; has_type = h })
                  | inr h ↦ inr h
                ]
              ]
        refl

  -- What the set of failures is kept for: each of them has been reported.
  Failures : List Evidence → List String → Type 0
  Failures before failures =
      (urn : String)
      → member urn failures ≡ true
      → any (λ (e : Evidence). str_eq e.subject urn) before ≡ true

  later-Failures :
      (before own : List Evidence) (failures : List String)
      → Failures before failures
      → Failures (before ++ own) failures
  unfolding Failures
  later-Failures before own failures h urn m =
      ground (arith, any-append (λ (e : Evidence). str_eq e.subject urn) before own, h urn m)

  no_Failures : Failures [] []
  unfolding Failures member
  no_Failures urn m = m

  -- What one round does, after what was reported before.
  Round : Pair → List Evidence → List Evidence × List String → Type 0
  unfolding Failures
  Round reference before (own, failures) =
      Addressed (before ++ own) reference × Failures (before ++ own) failures

  resolved :
      (reference : Pair) (before own : List Evidence)
      → IsResolved reference ⊎ Reported own reference
      → Addressed (before ++ own) reference
  unfolding Addressed Reported
  resolved reference before own (inl h) = inl h
  resolved reference before own (inr h) =
      inr (ground (arith, any-append (about reference) before own, h))

  known_failure :
      (reference : Pair) (before : List Evidence) (failures : List String)
      → Failures before failures
      → member reference.0 failures ≡ true
      → Reported before reference
  unfolding Failures Reported about
  known_failure reference before failures h m =
      any-weaken (λ e. str_eq e.subject reference.0) (about reference) before
        (λ e k. ground (arith, k)) (h reference.0 m)

  reported :
      (reference : Pair) (e : Evidence) → e.subject ≡ reference.0 → Reported (e ∷ []) reference
  unfolding Reported about
  reported reference e h = ground (arith, str_eq_of h)

  failed-Failures :
      (urn : String) (before : List Evidence) (failures : List String) (error : String)
      → Failures before failures
      → Failures (before ++ graph_unavailable urn error ∷ []) (urn ∷ failures)
  unfolding Failures graph_unavailable member
  failed-Failures urn before failures error h v m = elim (Bool-cases (str_eq v urn)) [
    | inl e ↦ ground (
      arith,
      any-append (λ (x : Evidence). str_eq x.subject v) before (graph_unavailable urn error ∷ []),
      str_eq_iff v urn,
      str_eq_iff urn v,
      e,
    )
    | inr e ↦ ground (
      arith,
      any-append (λ (x : Evidence). str_eq x.subject v) before (graph_unavailable urn error ∷ []),
      h v,
      e,
      m,
    )
  ]

  earlier :
      (reference : Pair) (before : List Evidence)
      → Reported before reference
      → Addressed before reference
  unfolding Reported Addressed
  earlier reference before h = inr h

  still :
      (reference : Pair) (before later : List Evidence)
      → Addressed before reference
      → Addressed (before ++ later) reference
  unfolding Addressed
  still reference before later (inl h) = inl h
  still reference before later (inr h) =
      inr (ground (arith, any-append (about reference) before later, h))

  check_reply-Round :
      (reference : Pair) (before : List Evidence) (failures : List String)
      (reply : Reply (Option DatasetInfo))
      → Told Shown Broken reference.0 reply
      → Failures before failures
      → Round reference before (check_reply strip lower change reference failures reply)
  unfolding check_reply Round graph_unavailable unknown_dataset
  check_reply-Round reference before failures (answered (some info)) t h = (
    resolved reference before _ (check_field-IsResolved reference info t),
    later-Failures before _ failures h,
  )
  check_reply-Round reference before failures (answered none) t h = (
    resolved reference before _ (inr (reported reference _ refl)),
    later-Failures before _ failures h,
  )
  check_reply-Round reference before failures (failed error) t h =
      if_known (Round reference before) (member reference.0 failures) _ _
        (λ e. (
          subst (λ es. Addressed es reference) (sym (append-nil before))
              (earlier reference before (known_failure reference before failures h e)),
          later-Failures before [] failures h,
        ))
        (λ e. (
          resolved reference before _ (inr (reported reference _ refl)),
          failed-Failures reference.0 before failures error h,
        ))

  module _ {W : Type 0} (graph : GraphClient W) (says : Says graph Shown Broken) where
    check_all-Addressed :
        (rest : List Pair) (before : List Evidence) (cache : Cache) (failures : List String) (w : W)
        → Holds Shown cache
        → Failures before failures
        → All
            (Addressed (before ++ (check_all strip lower graph change rest cache failures w).0))
            rest
    unfolding check_all Round
    check_all-Addressed [] before cache failures w h f = tt
    check_all-Addressed (reference ∷ rest) before cache failures w h f =
        let reply = (cached graph reference.0 cache w).0 in
        let kept = (cached graph reference.0 cache w).1 in
        let own = check_reply strip lower change reference failures reply in
        let later = (check_all strip lower graph change rest kept.0 own.1 kept.1).0 in
        let (t, k) = cached-Told Shown Broken graph says reference.0 cache w h in
        let (a, f') = check_reply-Round reference before failures reply t f in
        subst (λ es. All (Addressed es) (reference ∷ rest)) (append_assoc before own.0 later)
          (
            still reference (before ++ own.0) later a,
            check_all-Addressed rest (before ++ own.0) kept.0 own.1 kept.1 k f',
          )

    all_Addressed :
        (w : W) → All (Addressed (collect strip lower graph change w).0) (all_references change)
    unfolding collect references Failures member
    all_Addressed w =
        let evidence = (collect strip lower graph change w).0 in
        let all =
          check_all-Addressed (references change) [] [] [] w (nothing-Holds Shown Broken)
            no_Failures in
        All_from_pairs (Addressed evidence) (all_references change) (λ a k.
          All-has_pair (Addressed evidence) a (references change)
            (has_pair-perm a (sorted-perm pair_le (distinct_pairs (all_references change)))
              ∙ has_pair-distinct a (all_references change)
              ∙ k)
            all)

    -- Whatever the catalog answers, each piece of evidence of the schema gate rests on what a call
    -- showed or how it failed, and every reference of the change either resolves, by its dataset,
    -- its field and its type, or has evidence about it.
    pub collect-Stated :
        (w : W)
        → All (Stated strip lower Shown Broken change) (collect strip lower graph change w).0
          × All (Addressed (collect strip lower graph change w).0) (all_references change)
    unfolding collect
    collect-Stated w = (
      check_all-Stated strip lower Shown Broken change graph says (references change) [] [] w
          (nothing-Holds Shown Broken),
      all_Addressed w,
    )
