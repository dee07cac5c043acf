-- ===== src/Gates/Blast/Noted.antt =====
-- No asset downstream drops out of a blast radius (src/sidq/gates/blast.py, `_details`).
use sidq.Prelude.{
  ℕ, String, true, Option, none, some, List, [], ◌∷◌, ◌++◌, All, ◌≡◌, refl, ◌∙◌, arith, any-append,
  str_eq_refl, str_eq, is_infix,
}
use sidq.Prelude.Sets.{member, member-append, distinct, member-distinct, member-sorted}
use sidq.Value.{Fields, arr, strings, get_key}
use sidq.Models.{DatasetInfo}
use sidq.Gates.Graph.{
  bind_rule, WhenAnswered, Reply, answered, failed, GraphClient, LineagePath, LineageResult,
}
use sidq.Gates.Blast.Details.{
  Texts, Impact, add_pii, is_critical, note_dashboard, weigh, weigh_all, read_of, no_impact,
  impact_detail, sorted_set, weigh_result, owners_of, details,
}
use sidq.Gates.Blast.Targets.{any-member}

-- The lists that a reader of the verdict relies on only grow.
pub record Grows (before after : Impact) : Type 0 where
  pub unreadable :
      (u : String) → member u before.unreadable ≡ true → member u after.unreadable ≡ true
  pub critical : (u : String) → member u before.critical ≡ true → member u after.critical ≡ true

same_Grows : (i : Impact) → Grows i i
same_Grows i = record { unreadable = λ u h. h; critical = λ u h. h }

then_Grows : (a b c : Impact) → Grows a b → Grows b c → Grows a c
then_Grows a b c f g = record {
  unreadable = λ u h. g.unreadable u (f.unreadable u h);
  critical = λ u h. g.critical u (f.critical u h);
}

module _ {W : Type 0} (texts : Texts) (graph : GraphClient W) where
  -- A call for the asset failed or found nothing, and the impact has it as unreadable; or a call
  -- showed it, and it is among the critical assets if a tag of it says so.
  pub data Noted (impact : Impact) (urn : String) : Type 0 where
    absent :
        (w : W)
        → (graph.get_dataset urn w).0 ≡ answered none
        → member urn impact.unreadable ≡ true
        → Noted impact urn
    unread :
        (w : W) (error : String)
        → (graph.get_dataset urn w).0 ≡ failed error
        → member urn impact.unreadable ≡ true
        → Noted impact urn
    seen :
        (w : W) (info : DatasetInfo)
        → (graph.get_dataset urn w).0 ≡ answered (some info)
        → ((tag : String)
            → member tag info.tags ≡ true
            → is_infix "critical" (texts.lower tag) ≡ true
            → member urn impact.critical ≡ true)
        → Noted impact urn

  still_Noted : (a b : Impact) → Grows a b → (urn : String) → Noted a urn → Noted b urn
  still_Noted a b g urn (absent w e h) = absent w e (g.unreadable urn h)
  still_Noted a b g urn (unread w error e h) = unread w error e (g.unreadable urn h)
  still_Noted a b g urn (seen w info e h) = seen w info e (λ tag m c. g.critical urn (h tag m c))

  pii_Grows : (urn : String) (tags : List String) (i : Impact) → Grows i (add_pii texts urn tags i)
  unfolding add_pii
  pii_Grows urn tags i = record {
    unreadable = λ u h. ground (arith, h);
    critical = λ u h. ground (arith, h);
  }

  dashboard_Grows :
      (result : LineageResult) (urn : String) (i : Impact)
      → Grows i (note_dashboard texts result urn i)
  unfolding note_dashboard
  dashboard_Grows result urn i = record {
    unreadable = λ u h. ground (arith, h);
    critical = λ u h. ground (arith, h);
  }

  weigh-Grows :
      (result : LineageResult) (owners : List String) (urn : String) (info : Option DatasetInfo)
      (i : Impact)
      → Grows i (weigh texts result owners urn info i)
  unfolding weigh add_pii
  weigh-Grows result owners urn none i = record {
    unreadable = λ u h. ground (arith, h, member-append u i.unreadable (urn ∷ []));
    critical = λ u h. ground (arith, h);
  }
  weigh-Grows result owners urn (some info) i = record {
    unreadable = λ u h. ground (arith, h);
    critical = λ u h. ground (arith, h, member-append u i.critical (urn ∷ []));
  }

  member_last : (urn : String) (us : List String) → member urn (us ++ urn ∷ []) ≡ true
  unfolding member
  member_last urn us = ground (arith, any-append (str_eq urn) us (urn ∷ []), str_eq_refl urn)

  unread_is_listed :
      (result : LineageResult) (owners : List String) (urn : String) (i : Impact)
      → member urn (weigh texts result owners urn none i).unreadable ≡ true
  unfolding weigh add_pii
  unread_is_listed result owners urn i = ground (arith, member_last urn i.unreadable)

  -- A round notes its asset.
  weigh-Noted :
      (result : LineageResult) (owners : List String) (urn : String) (w : W)
      (reply : Reply (Option DatasetInfo)) (i : Impact)
      → (graph.get_dataset urn w).0 ≡ reply
      → Noted (weigh texts result owners urn (read_of reply) i) urn
  unfolding weigh read_of add_pii is_critical
  weigh-Noted result owners urn w (failed error) i e =
      unread w error e (unread_is_listed result owners urn i)
  weigh-Noted result owners urn w (answered none) i e =
      absent w e (unread_is_listed result owners urn i)
  weigh-Noted result owners urn w (answered (some info)) i e = seen w info e (λ tag m c. ground (
    arith,
    any-member (λ t. is_infix "critical" (texts.lower t)) info.tags tag m c,
    member_last urn i.critical,
  ))

  weigh_all-Grows :
      (result : LineageResult) (owners urns : List String) (i : Impact) (w : W)
      → Grows i (weigh_all texts graph result owners urns i w).0
  unfolding weigh_all
  weigh_all-Grows result owners [] i w = same_Grows i
  weigh_all-Grows result owners (urn ∷ urns) i w =
      let reply = (graph.get_dataset urn w).0 in
      let own = weigh texts result owners urn (read_of reply) i in
      let noted = note_dashboard texts result urn own in
      then_Grows i noted _
        (then_Grows i own noted (weigh-Grows result owners urn (read_of reply) i)
          (dashboard_Grows result urn own))
        (weigh_all-Grows result owners urns noted (graph.get_dataset urn w).1)

  weigh_all-Noted :
      (result : LineageResult) (owners urns : List String) (i : Impact) (w : W)
      → All (Noted (weigh_all texts graph result owners urns i w).0) urns
  unfolding weigh_all
  weigh_all-Noted result owners [] i w = tt
  weigh_all-Noted result owners (urn ∷ urns) i w =
      let reply = (graph.get_dataset urn w).0 in
      let own = weigh texts result owners urn (read_of reply) i in
      let noted = note_dashboard texts result urn own in
      let w' = (graph.get_dataset urn w).1 in
      (
        still_Noted own (weigh_all texts graph result owners urns noted w').0
            (then_Grows own noted _ (dashboard_Grows result urn own)
              (weigh_all-Grows result owners urns noted w'))
            urn (weigh-Noted result owners urn w reply i refl),
        weigh_all-Noted result owners urns noted w',
      )

  -- The detail lists the assets of a key, in whatever order.
  pub record Lists (key : String) (assets : List String) (detail : Fields) : Type 0 where
    pub listed : List String
    pub shown : get_key key detail ≡ some (arr (strings listed))
    pub same : (u : String) → member u listed ≡ member u assets

  -- The detail shows an impact that notes every asset of the lineage.
  pub record Detailed (result : LineageResult) (paths : List LineagePath) (depth : ℕ)
      (detail : Fields) : Type 0 where
    pub impact : Impact
    pub shows : detail ≡ impact_detail texts.three_digits result paths depth impact
    pub notes : All (Noted impact) result.urns
    pub critical : Lists "critical_assets" impact.critical detail
    pub unreadable : Lists "unreadable_assets" impact.unreadable detail

  member-sorted_set : (u : String) (us : List String) → member u (sorted_set us) ≡ member u us
  unfolding sorted_set
  member-sorted_set u us = member-sorted u (distinct us) ∙ member-distinct u us

  weigh_result-Detailed :
      (result : LineageResult) (paths : List LineagePath) (depth : ℕ) (owners : List String) (w : W)
      → WhenAnswered
          (Detailed result paths depth)
          (weigh_result texts graph result paths depth owners w).0
  unfolding weigh_result WhenAnswered impact_detail get_key sorted_set
  weigh_result-Detailed result paths depth owners w =
      let found = (weigh_all texts graph result owners result.urns (no_impact texts graph) w).0 in
      record {
        impact = found;
        shows = refl;
        notes = weigh_all-Noted result owners result.urns (no_impact texts graph) w;
        critical = record {
          listed = sorted_set found.critical;
          shown = refl;
          same = λ u. member-sorted_set u found.critical;
        };
        unreadable = record {
          listed = sorted_set found.unreadable;
          shown = refl;
          same = λ u. member-sorted_set u found.unreadable;
        };
      }

  pub details-Detailed :
      (source : String) (result : LineageResult) (paths : List LineagePath) (depth : ℕ) (w : W)
      → WhenAnswered
          (Detailed result paths depth)
          (details texts graph source result paths depth w).0
  unfolding details WhenAnswered
  details-Detailed source result paths depth w =
      bind_rule (WhenAnswered (Detailed result paths depth)) (graph.get_dataset source)
        (λ info. weigh_result texts graph result paths depth (owners_of info)) w (λ error e. tt)
        (λ info e.
          weigh_result-Detailed result paths depth (owners_of info) (graph.get_dataset source w).1)
