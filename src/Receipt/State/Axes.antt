-- ===== src/Receipt/State/Axes.antt =====
-- How the three axes of a judgment hang together, for any payload that a catalog returns.
use sidq.Prelude.{
  String, str_eq, true, false, Option, some, any, if◌then◌else◌, ◌≡◌, ◌≢◌, ◌↔◌, inl, inr, refl,
  arith, str_eq_iff, Bool-cases,
}
use sidq.Value.{Value, bool, str, obj, Fields, eq_value}
use sidq.Receipt.State.{
  ReceiptState, Action, ReceiptJudgment, Show, text_of, get, truthy, not_applicable, judge_current,
  judge_freshness, judge_fields, judge, may_continue, verdicts,
}

-- What a current receipt with this verdict authorizes.
abbrev pub action_for : String → Action
action_for verdict =
    if str_eq verdict "BLOCK"
    then Action.stop
    else if str_eq verdict "WARN"
    then Action.review
    else Action.continue

-- The state decides coverage; a receipt that does not apply authorizes nothing, and a current one
-- authorizes what its verdict, one of the engine's three, allows.
pub record IsConsistent (j : ReceiptJudgment) : Type 0 where
  pub covers_iff : (j.covers ≡ true) ↔ (j.state ≡ ReceiptState.current)
  pub recheck_iff : (j.action ≡ Action.recheck) ↔ (j.covers ≡ false)
  pub action_of_verdict :
      j.covers ≡ true
      → (v : String) × (j.verdict ≡ some v)
        × (any (str_eq v) verdicts ≡ true)
        × (j.action ≡ action_for v)

not_applicable-IsConsistent :
    (s : ReceiptState) (v : Option String) (r : String)
    → s ≢ ReceiptState.current
    → IsConsistent (not_applicable s v r)
unfolding not_applicable
not_applicable-IsConsistent s v r h = record {
  covers_iff = (λ e. cc, λ e. absurd (h e));
  recheck_iff = (λ e. refl, λ e. refl);
  action_of_verdict = λ e. cc;
}

judge_current-IsConsistent :
    (show : Show) (fs : Fields) (v : String)
    → any (str_eq v) verdicts ≡ true
    → IsConsistent (judge_current show fs v)
unfolding judge_current
judge_current-IsConsistent show fs v h = record {
  covers_iff = (λ e. ground arith, λ e. ground arith);
  recheck_iff = (λ e. ground arith, λ e. ground arith);
  action_of_verdict = λ e. (v, ground arith, h, ground arith);
}

judge_freshness-IsConsistent :
    (show : Show) (fs : Fields) (v : String) (stale : Value)
    → any (str_eq v) verdicts ≡ true
    → IsConsistent (judge_freshness show fs v stale)
unfolding judge_freshness
judge_freshness-IsConsistent show fs v (bool true) h = not_applicable-IsConsistent _ _ _ (λ e. cc)
judge_freshness-IsConsistent show fs v (bool false) h = judge_current-IsConsistent show fs v h
judge_freshness-IsConsistent show fs v _ h = not_applicable-IsConsistent _ _ _ (λ e. cc)

stale-ne-current : ReceiptState.stale ≢ ReceiptState.current
stale-ne-current e = cc

absent-ne-current : ReceiptState.absent ≢ ReceiptState.current
absent-ne-current e = cc

invalid-ne-current : ReceiptState.invalid ≢ ReceiptState.current
invalid-ne-current e = cc

judge_fields-IsConsistent : (show : Show) (fs : Fields) → IsConsistent (judge_fields show fs)
unfolding judge_fields
judge_fields-IsConsistent show fs = elim (Bool-cases (truthy (get "verdict" fs))) [
  | inr none_there ↦ rw none_there (not_applicable-IsConsistent _ _ _ absent-ne-current)
  | inl there ↦ elim (Bool-cases (eq_value (get "attestation" fs) (str "TAMPERED"))) [
    | inl forged ↦ rw (there, forged) (not_applicable-IsConsistent _ _ _ invalid-ne-current)
    | inr genuine ↦ elim (Bool-cases (any (str_eq (text_of show (get "verdict" fs))) verdicts)) [
      | inl known ↦
          rw (there, genuine, known)
            (judge_freshness-IsConsistent show fs (text_of show (get "verdict" fs)) (get "stale" fs)
              known)
      | inr unknown ↦
          rw (there, genuine, unknown) (not_applicable-IsConsistent _ _ _ invalid-ne-current)
    ]
  ]
]

-- Whatever payload the catalog returns, the three axes of the judgment agree: it covers the
-- asset exactly if it is current, it asks for a new check exactly if it does not cover the
-- asset, and a covering judgment carries one of the engine's three verdicts and the action that
-- this verdict allows.
judge-IsConsistent : (show : Show) (status : Value) → IsConsistent (judge show status)
unfolding judge
judge-IsConsistent show (obj fs) = judge_fields-IsConsistent show fs
judge-IsConsistent show _ = not_applicable-IsConsistent _ _ _ (λ e. cc)

-- What a catalog must say for a reader to go on: the verdict PASS, no forged signature, and a
-- freshness marker that is literally `False`.
abbrev pub Authorizes : Show → Value → Type 0
Authorizes show (obj fs) =
    (truthy (get "verdict" fs) ≡ true)
    × (text_of show (get "verdict" fs) ≡ "PASS")
    × (eq_value (get "attestation" fs) (str "TAMPERED") ≡ false)
    × (get "stale" fs ≡ bool false)
Authorizes show _ = ⊥

fresh_pass :
    (show : Show) (fs : Fields) (v : String) (stale : Value)
    → any (str_eq v) verdicts ≡ true
    → may_continue (judge_freshness show fs v stale) ≡ true
    → (v ≡ "PASS") × (stale ≡ bool false)
unfolding judge_freshness may_continue
fresh_pass show fs v (bool false) known h =
    (ground (arith, str_eq_iff v "PASS", str_eq_iff v "WARN", str_eq_iff v "BLOCK"), refl)
fresh_pass show fs v (bool true) known h = cc
fresh_pass show fs v _ known h = cc

continue_only :
    (show : Show) (fs : Fields)
    → may_continue (judge_fields show fs) ≡ true
    → Authorizes show (obj fs)
unfolding judge_fields may_continue not_applicable
continue_only show fs h =
    ground (arith, fresh_pass show fs (text_of show (get "verdict" fs)) (get "stale" fs))

is_pass :
    (v : String)
    → v ≡ "PASS"
    → (str_eq v "PASS" ≡ true) × (str_eq v "WARN" ≡ false) × (str_eq v "BLOCK" ≡ false)
is_pass v e = rw e (refl, refl, refl)

continue_if :
    (show : Show) (fs : Fields)
    → Authorizes show (obj fs)
    → may_continue (judge_fields show fs) ≡ true
unfolding judge_fields judge_freshness may_continue
continue_if show fs (t, v, a, s) =
    let verdict : String = text_of show (get "verdict" fs) in
    let tests : (str_eq verdict "PASS" ≡ true)
        × (str_eq verdict "WARN" ≡ false)
        × (str_eq verdict "BLOCK" ≡ false) =
      is_pass verdict v in
    rw (t, a, tests.0, s) (rw (tests.2, tests.1))

pub continue_exact :
    (show : Show) (status : Value)
    → (may_continue (judge show status) ≡ true) ↔ Authorizes show status
unfolding judge not_applicable may_continue
continue_exact show (obj fs) = (continue_only show fs, continue_if show fs)
continue_exact show _ = (λ h. cc, λ w. absurd w)

-- An agent may continue exactly if the status is a mapping with the verdict PASS, without a
-- forged signature, and with a freshness marker that is literally `False`. Whatever the status,
-- the three axes of the judgment agree: it covers the asset exactly if it is current, it asks
-- for a new check exactly if it does not cover the asset, and a covering judgment carries one of
-- the engine's three verdicts and the action that this verdict allows.
pub judge_continue :
    (show : Show) (status : Value)
    → ((may_continue (judge show status) ≡ true) ↔ Authorizes show status)
      × IsConsistent (judge show status)
judge_continue show status = (continue_exact show status, judge-IsConsistent show status)

-- A genuine and fresh receipt with one of the three verdicts covers its asset, and authorizes what
-- its verdict allows.
pub judge_of_current :
    (show : Show) (fs : Fields) (v : String)
    → truthy (get "verdict" fs) ≡ true
    → text_of show (get "verdict" fs) ≡ v
    → any (str_eq v) verdicts ≡ true
    → eq_value (get "attestation" fs) (str "TAMPERED") ≡ false
    → get "stale" fs ≡ bool false
    → ((judge show (obj fs)).covers ≡ true)
      × ((judge show (obj fs)).verdict ≡ some v)
      × ((judge show (obj fs)).action ≡ action_for v)
unfolding judge judge_fields judge_freshness
judge_of_current show fs v t e known a s =
    let known' : any (str_eq (text_of show (get "verdict" fs))) verdicts ≡ true = rw e known in
    rw (t, a, known', s) (rw e (ground arith, ground arith, ground arith))
