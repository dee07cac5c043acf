-- ===== src/Claims/Reconcile/Same.antt =====
-- What it takes for a constraint and a claim to be equivalent (src/sidq/claims/canonical.py).
use sidq.Prelude.{
  String, str_eq_iff, true, false, Option, none, some, Bool-cases, Option-cases, ◌≡◌, ◌∙◌, refl,
  sym, subst, inl, inr, arith, ap,
}
use sidq.Claims.Models.{NormalizedConstraint, Rung, option_eq}
use sidq.Claims.Compare.{equivalence_tier, kind_family, comparison_sql, same_family}
use sidq.Claims.Canonical.{Sql, raw_fingerprint, equivalent, is_none}

-- The two texts are the same but for white space and case, or have one canonical form, or have one
-- after the rewrites.
unfoldable pub SameText : Sql → Rung → String → String → Type 0
SameText sql Rung.identical a b = raw_fingerprint sql a ≡ raw_fingerprint sql b
SameText sql Rung.canonical a b =
    (form : String) × (sql.canonicalize a ≡ some form) × (sql.canonicalize b ≡ some form)
SameText sql Rung.rewrite a b =
    (form : String) × (sql.rewrite_canonical a ≡ some form) × (sql.rewrite_canonical b ≡ some form)

-- Two constraints of one family whose texts are the same on this rung.
pub record IsSame (sql : Sql) (rung : Rung) (a b : NormalizedConstraint) : Type 0 where
  pub one_family : kind_family a ≡ kind_family b
  pub same_text : SameText sql rung (comparison_sql a) (comparison_sql b)

option_equal : (a b : Option String) → option_eq a b ≡ true → a ≡ b
unfolding option_eq
option_equal none none h = refl
option_equal none (some t) h = ground (arith, h)
option_equal (some s) none h = ground (arith, h)
option_equal (some s) (some t) h = ap some ((str_eq_iff s t).0 (ground (arith, h)))

equivalent-SameText :
    (sql : Sql) (a b : String) (rung : Rung)
    → equivalent sql a b ≡ some rung
    → SameText sql rung a b
unfolding equivalent SameText is_none
equivalent-SameText sql a b rung h =
    elim (Bool-cases (option_eq (raw_fingerprint sql a) (raw_fingerprint sql b))) [
      | inl e ↦
          let at : Rung.identical ≡ rung = ground (arith, e, h) in
          subst (λ r. SameText sql r a b) at (option_equal _ _ e)
      | inr e ↦ elim (Option-cases (sql.canonicalize a)) [
        | inl f ↦ let q : true ≡ false = ground (arith, e, f, h) in cc
        | inr (s, f) ↦ elim (Option-cases (sql.canonicalize b)) [
          | inl g ↦ let q : true ≡ false = ground (arith, e, f, g, h) in cc
          | inr (t, g) ↦ elim (Bool-cases (option_eq (some s) (some t))) [
            | inl k ↦
                let at : Rung.canonical ≡ rung = ground (arith, e, f, g, k, h) in
                let same : some s ≡ some t = option_equal (some s) (some t) k in
                subst (λ r. SameText sql r a b) at (s, f, g ∙ sym same)
            | inr k ↦ elim (Option-cases (sql.rewrite_canonical a)) [
              | inl m ↦ let q : true ≡ false = ground (arith, e, f, g, k, m, h) in cc
              | inr (u, m) ↦ elim (Bool-cases (option_eq (some u) (sql.rewrite_canonical b))) [
                | inl n ↦
                    let at : Rung.rewrite ≡ rung = ground (arith, e, f, g, k, m, n, h) in
                    subst (λ r. SameText sql r a b) at
                      (u, m, sym (option_equal (some u) (sql.rewrite_canonical b) n))
                | inr n ↦ let q : true ≡ false = ground (arith, e, f, g, k, m, n, h) in cc
              ]
            ]
          ]
        ]
      ]
    ]

pub equivalence_tier-IsSame :
    (sql : Sql) (a b : NormalizedConstraint) (rung : Rung)
    → equivalence_tier sql a b ≡ some rung
    → IsSame sql rung a b
unfolding equivalence_tier same_family
equivalence_tier-IsSame sql a b rung h = record {
  one_family = (str_eq_iff (kind_family a) (kind_family b)).0 (ground (arith, h));
  same_text =
      equivalent-SameText sql (comparison_sql a) (comparison_sql b) rung (ground (arith, h));
}
