-- ===== src/Agent/Run/Books.antt =====
-- What taking a target off the auditor's queue does to its books.
use sidq.Prelude.{
  ◌+◌, ◌≤◌, leb, String, str_eq, true, Option, none, some, List, [], ◌∷◌, ◌++◌, any, length, All,
  Bool-cases, Option-cases, ◌≡◌, refl, ◌∙◌, arith, inl, inr,
}
use sidq.Prelude.Dict.{Dict, lookup}
use sidq.Prelude.Sets.{member, count, remaining}
use sidq.Models.{Evidence}
use sidq.Catalog.Checks.Columns.{is_empty_list}
use sidq.Agent.Memory.{prior_refused}
use sidq.Agent.Auditor.{Target, AuditRun, CatalogAuditor, neighbours, examine}
use sidq.Agent.Run.{
  Progress, contagious_findings, record_prior, found_in, record_evidence, record_empty, conclude,
  audit_target, take_target,
}
use sidq.Agent.Run.Rounds.{
  bookings, record_prior_books, record_evidence_books, record_empty_books, deferred_books,
  promote_all-Extends,
}

module _ (known : List String) (P : Target → Type 0) (by_urn : Dict Target)
    (sound : (u : String) (t : Target)
      → lookup u by_urn ≡ some t
      → P t × (member u known ≡ true)) where
  -- The target's own booking, once it was taken.
  pub record Books (target : Target) (st st' : Progress) : Type 0 where
    pub one_booking :
        (u : String) → bookings u st'.result ≡ bookings u st.result + count u (target.urn ∷ [])
    pub old_seen : st'.seen ≡ st.seen
    pub old_queue :
        (u : String)
        → any (λ (t : Target). str_eq t.urn u) st.queue ≡ true
        → any (λ (t : Target). str_eq t.urn u) st'.queue ≡ true
    pub all_queue : All P st.queue → All P st'.queue
    pub no_more_left :
        length st'.queue + remaining known st'.promoted_urns
        ≤ length st.queue + remaining known st.promoted_urns

  abbrev pub After : (Progress → Type 0) → Option Progress → Type 0
  After Q none = Unit
  After Q (some st) = Q st

  book :
      (target : Target) (st : Progress) (r : AuditRun)
      → ((u : String) → bookings u r ≡ bookings u st.result + count u (target.urn ∷ []))
      → Books target st (record st { result = r })
  book target st r h = record {
    one_booking = h;
    old_seen = refl;
    old_queue = λ u k. k;
    all_queue = λ k. k;
    no_more_left = ground arith;
  }

  conclude-Books :
      (a : CatalogAuditor) (target : Target) (collected : List Evidence) (st : Progress)
      → Books target st (conclude a by_urn target collected st)
  unfolding conclude
  conclude-Books a target collected st =
      let r = record_evidence target collected st.result in
      elim (Bool-cases (is_empty_list (found_in collected))) [
        | inl e ↦
            rw (conclude, e)
              (book target st (record_empty target collected r) (λ u.
                record_empty_books u target collected r
                ∙ record_evidence_books u target collected st.result))
        | inr e ↦
            elim (Bool-cases
              (any (λ (ev : Evidence). member ev.kind contagious_findings) (found_in collected))) [
                | inl f ↦
                    let ext =
                      promote_all-Extends known P by_urn sound target.urn
                        (neighbours a.snapshot target.urn) (record st { result = r }) in
                    rw (conclude, e, f)
                      (record {
                        one_booking = λ u.
                            ext.same_books u ∙ record_evidence_books u target collected st.result;
                        old_seen = ext.same_seen;
                        old_queue = ext.keeps_queue;
                        all_queue = ext.keeps_all;
                        no_more_left = ext.less_left;
                      })
                | inr f ↦
                    rw (conclude, e, f)
                      (book target st r (λ u. record_evidence_books u target collected st.result))
              ]
      ]

  audit_target-Books :
      (a : CatalogAuditor) (target : Target) (st : Progress)
      → After (Books target st) (audit_target a by_urn target st)
  unfolding audit_target
  audit_target-Books a target st = elim (Bool-cases (leb a.budget (length st.result.examined))) [
    | inl e ↦
        rw (audit_target, e)
          (book target st (record st.result { deferred = st.result.deferred ++ target ∷ [] })
            (λ u. deferred_books u target st.result))
    | inr e ↦ elim (Option-cases (examine a target.urn)) [
      | inl f ↦ rw (audit_target, e, f) tt
      | inr (collected, f) ↦ rw (audit_target, e, f) (conclude-Books a target collected st)
    ]
  ]

  pub take_target-Books :
      (a : CatalogAuditor) (target : Target) (st : Progress)
      → After (Books target st) (take_target a by_urn target st)
  unfolding take_target record_prior prior_refused
  take_target-Books a target st = elim (Option-cases (lookup target.urn a.prior)) [
    | inl e ↦ rw (take_target, e) (audit_target-Books a target st)
    | inr (p, e) ↦ elim (Bool-cases p.covers) [
      | inl f ↦
          rw (take_target, e, f)
            (book target st (record_prior p target st.result)
              (λ u. record_prior_books u p target st.result))
      | inr f ↦ rw (take_target, e, f) (audit_target-Books a target st)
    ]
  ]
