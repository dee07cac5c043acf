-- ===== src/Agent/Run/Honest.antt =====
-- What each book of a report is worth.
use sidq.Prelude.{
  ◌≤◌, String, Bool, true, false, none, some, List, [], ◌∷◌, any, length, All, ◌≡◌, refl, arith,
}
use sidq.Prelude.Dict.{lookup}
use sidq.Models.{Evidence}
use sidq.Catalog.Checks.Columns.{is_empty_list}
use sidq.Agent.Memory.{PriorReceipt, prior_refused}
use sidq.Agent.Auditor.{AuditRun, CatalogAuditor, is_unverifiable, examine}
use sidq.Agent.Run.{found_in}

-- A receipt of the asset that covers it now, with the reason that the report gives.
pub record Recorded (a : CatalogAuditor) (blocked : Bool) (p : String × String) : Type 0 where
  pub receipt : PriorReceipt
  pub is_prior : lookup p.0 a.prior ≡ some receipt
  pub is_current : receipt.covers ≡ true
  pub is_blocked : prior_refused receipt ≡ blocked
  pub is_reason : receipt.reason ≡ p.1

abbrev pub covered : CatalogAuditor → String → Bool
covered a u = elim (lookup u a.prior) [ none ↦ false | some p ↦ p.covers ]

pub record Unestablished (a : CatalogAuditor) (u : String) : Type 0 where
  pub evidence : List Evidence
  pub examined_as : examine a u ≡ some evidence
  pub nothing_found : is_empty_list (found_in evidence) ≡ true
  pub not_checkable : any is_unverifiable evidence ≡ true

pub record IsHonest (a : CatalogAuditor) (r : AuditRun) : Type 0 where
  pub within_budget : length r.examined ≤ a.budget
  pub budget_spent : is_empty_list r.deferred ≡ false → a.budget ≤ length r.examined
  pub never_covered : All (λ u. covered a u ≡ false) r.examined
  pub vouched_recorded : All (Recorded a false) r.vouched
  pub refused_recorded : All (Recorded a true) r.refused
  pub verified_clean : All (λ u. examine a u ≡ some []) r.verified
  pub unestablished_gap : All (Unestablished a) r.unestablished
  pub findings_real : All (λ ev. is_unverifiable ev ≡ false) r.findings

-- Evidence of neither sort is no evidence.
pub none_of_either :
    (collected : List Evidence)
    → is_empty_list (found_in collected) ≡ true
    → any is_unverifiable collected ≡ false
    → collected ≡ []
unfolding is_empty_list
none_of_either [] h k = refl
none_of_either (ev ∷ evs) h k = ground (arith, h, k)

pub found_in-real : (evs : List Evidence) → All (λ ev. is_unverifiable ev ≡ false) (found_in evs)
found_in-real [] = tt
found_in-real (ev ∷ evs) = ground (arith, found_in-real evs)
