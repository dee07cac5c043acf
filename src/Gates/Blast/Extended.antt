-- ===== src/Gates/Blast/Extended.antt =====
-- No asset of the lineage is lost before the details (src/sidq/gates/blast.py).
use sidq.Prelude.{
  ℕ, String, true, not, Option, none, List, [], ◌∷◌, if◌then◌else◌, if_known, ◌≡◌, arith, ◌∙◌,
}
use sidq.Prelude.Sets.{member, member-append, distinct, member-distinct, member-sorted}
use sidq.Value.{Fields}
use sidq.Gates.Graph.{
  Asks, ◌>>=◌, give, throw, bind_rule, bind_when, anything, WhenAnswered, Reply, answered, failed,
  GraphClient, LineagePath, LineageResult,
}
use sidq.Gates.Blast.Paths.{paths, is_explore}
use sidq.Gates.Blast.Details.{Texts, details}
use sidq.Gates.Blast.Noted.{Detailed, details-Detailed}
use sidq.Gates.Blast.{absorb, bi_consumers, as_mappings, with_bi_consumers, impact}

module _ {W : Type 0} (texts : Texts) (graph : GraphClient W) (depth : ℕ) where
  -- All the assets are in the result.
  abbrev pub Extends : List String → LineageResult → Type 0
  Extends us result = (u : String) → member u us ≡ true → member u result.urns ≡ true

  bi_consumers-Extends :
      (us urns : List String) (result : LineageResult) (w : W)
      → Extends us result
      → WhenAnswered (Extends us) (bi_consumers texts graph depth urns result w).0
  unfolding bi_consumers WhenAnswered absorb
  bi_consumers-Extends us [] result w h = h
  bi_consumers-Extends us (urn ∷ urns) result w h =
      let rest = bi_consumers texts graph depth urns in
      if_known (λ (m : Asks W LineageResult). WhenAnswered (Extends us) (m w).0)
        (not (is_explore urn)) _ _ (λ e. bi_consumers-Extends us urns result w h)
        (λ e.
          bind_rule (WhenAnswered (Extends us)) (graph.get_downstream urn 2 none)
            (λ consumers.
              if not consumers.complete
              then throw "GraphResponseError"
              else rest (absorb result consumers))
            w (λ error k. tt)
            (λ consumers k.
              let w' = (graph.get_downstream urn 2 none w).1 in
              if_known (λ (m : Asks W LineageResult). WhenAnswered (Extends us) (m w').0)
                (not consumers.complete) _ _ (λ c. tt)
                (λ c.
                  bi_consumers-Extends us urns (absorb result consumers) w'
                    (λ u m. ground (arith, h u m, member-append u result.urns consumers.urns)))))

  with_bi_consumers-Extends :
      (result : LineageResult) (w : W)
      → WhenAnswered (Extends result.urns) (with_bi_consumers texts graph depth result w).0
  unfolding with_bi_consumers WhenAnswered as_mappings
  with_bi_consumers-Extends result w =
      bind_when (Extends result.urns) (Extends result.urns)
        (bi_consumers texts graph depth result.urns result)
        (λ extended. give (as_mappings extended)) w
        (bi_consumers-Extends result.urns result.urns result w (λ u m. m))
        (λ extended h u m.
          member-sorted u (distinct extended.urns) ∙ member-distinct u extended.urns ∙ h u m)

  -- A detail that notes every asset of the lineage.
  pub record Covers (result : LineageResult) (detail : Fields) : Type 0 where
    pub extended : LineageResult
    pub found : List LineagePath
    pub extends : Extends result.urns extended
    pub detailed : Detailed texts graph extended found depth detail

  covered :
      (result extended : LineageResult) (found : List LineagePath) (reply : Reply Fields)
      → Extends result.urns extended
      → WhenAnswered (Detailed texts graph extended found depth) reply
      → WhenAnswered (Covers result) reply
  unfolding WhenAnswered
  covered result extended found (failed error) h d = tt
  covered result extended found (answered detail) h d = record {
    extended = extended;
    found = found;
    extends = h;
    detailed = d;
  }

  pub impact-Covers :
      (urn : String) (column : Option String) (result : LineageResult) (w : W)
      → WhenAnswered (Covers result) (impact texts graph depth urn column result w).0
  unfolding impact
  impact-Covers urn column result w =
      bind_when (Extends result.urns) (Covers result) (with_bi_consumers texts graph depth result)
        (λ extended.
          paths graph urn extended column
          >>= (λ found. details texts graph urn extended found depth))
        w (with_bi_consumers-Extends result w)
        (λ extended h.
          let w' = (with_bi_consumers texts graph depth result w).1 in
          bind_when (λ found. Unit) (Covers result) (paths graph urn extended column)
            (λ found. details texts graph urn extended found depth) w'
            (anything (paths graph urn extended column w').0)
            (λ found u.
              let w'' = (paths graph urn extended column w').1 in
              covered result extended found (details texts graph urn extended found depth w'').0 h
                (details-Detailed texts graph urn extended found depth w'')))
