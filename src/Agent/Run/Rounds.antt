-- ===== src/Agent/Run/Rounds.antt =====
-- What one round of the auditor's loop does to its books.
use sidq.Prelude.{
  ℕ, ◌+◌, ◌≤◌, String, str_eq, true, ◌||◌, some, List, [], ◌∷◌, ◌++◌, map, any, length, All,
  Bool-cases, Option-cases, ◌≡◌, refl, ◌∙◌, arith, inl, inr,
}
use sidq.Prelude.Dict.{Dict, lookup}
use sidq.Prelude.Sets.{member, count, count-append, remaining, remaining_new}
use sidq.Models.{Evidence}
use sidq.Agent.Memory.{PriorReceipt}
use sidq.Agent.Auditor.{Target, AuditRun}
use sidq.Agent.Run.{Progress, record_prior, record_evidence, record_empty, promote, promote_all}

-- How often an asset is booked as examined, vouched for, refused or deferred.
unfoldable pub bookings : String → AuditRun → ℕ
bookings u r =
    count u r.examined
    + count u (map (λ (p : String × String). p.0) r.vouched)
    + count u (map (λ (p : String × String). p.0) r.refused)
    + count u (map (λ (t : Target). t.urn) r.deferred)

pub count_snoc {ℓ} :
    {A : Type ℓ} (u : String) (f : A → String) (xs : List A) (x : A)
    → count u (map f (xs ++ x ∷ [])) ≡ count u (map f xs) + count u (f x ∷ [])
unfolding count
count_snoc u f [] x = omega arith
count_snoc u f (y ∷ ys) x = ground (arith, count_snoc u f ys x)

pub record_prior_books :
    (u : String) (p : PriorReceipt) (target : Target) (r : AuditRun)
    → bookings u (record_prior p target r) ≡ bookings u r + count u (target.urn ∷ [])
unfolding bookings record_prior
record_prior_books u p target r = ground (
  arith,
  count_snoc u (λ (q : String × String). q.0) r.vouched (target.urn, p.reason),
  count_snoc u (λ (q : String × String). q.0) r.refused (target.urn, p.reason),
)

pub record_evidence_books :
    (u : String) (target : Target) (collected : List Evidence) (r : AuditRun)
    → bookings u (record_evidence target collected r) ≡ bookings u r + count u (target.urn ∷ [])
unfolding bookings record_evidence
record_evidence_books u target collected r =
    omega (arith, count-append u r.examined (target.urn ∷ []))

pub record_empty_books :
    (u : String) (target : Target) (collected : List Evidence) (r : AuditRun)
    → bookings u (record_empty target collected r) ≡ bookings u r
unfolding bookings record_empty
record_empty_books u target collected r = ground arith

pub deferred_books :
    (u : String) (target : Target) (r : AuditRun)
    → bookings u (record r { deferred = r.deferred ++ target ∷ [] })
      ≡ bookings u r + count u (target.urn ∷ [])
unfolding bookings
deferred_books u target r = omega (arith, count_snoc u (λ (t : Target). t.urn) r.deferred target)

-- A promotion changes no book but its own, forgets no target, and adds only planned ones.
pub record Extends (known : List String) (P : Target → Type 0) (st st' : Progress) : Type 0 where
  pub same_books : (u : String) → bookings u st'.result ≡ bookings u st.result
  pub same_seen : st'.seen ≡ st.seen
  pub same_examined : st'.result.examined ≡ st.result.examined
  pub keeps_queue :
      (u : String)
      → any (λ (t : Target). str_eq t.urn u) st.queue ≡ true
      → any (λ (t : Target). str_eq t.urn u) st'.queue ≡ true
  pub keeps_all : All P st.queue → All P st'.queue
  pub less_left :
      length st'.queue + remaining known st'.promoted_urns
      ≤ length st.queue + remaining known st.promoted_urns

module _ (known : List String) (P : Target → Type 0) (by_urn : Dict Target)
    (sound : (u : String) (t : Target)
      → lookup u by_urn ≡ some t
      → P t × (member u known ≡ true)) where
  same-Extends : (st : Progress) → Extends known P st st
  same-Extends st = record {
    same_books = λ u. refl;
    same_seen = refl;
    same_examined = refl;
    keeps_queue = λ u h. h;
    keeps_all = λ h. h;
    less_left = ground arith;
  }

  promote-Extends :
      (because urn : String) (st : Progress) → Extends known P st (promote by_urn because urn st)
  unfolding promote bookings
  promote-Extends because urn st =
      elim (Bool-cases (member urn st.seen || member urn st.promoted_urns)) [
        | inl e ↦ rw (promote, e) (same-Extends st)
        | inr e ↦ elim (Option-cases (lookup urn by_urn)) [
          | inl f ↦ rw (promote, e, f) (same-Extends st)
          | inr (target, f) ↦
              rw (promote, e, f)
                (record {
                  same_books = λ u. refl;
                  same_seen = refl;
                  same_examined = refl;
                  keeps_queue = λ u h. ground (arith, h);
                  keeps_all = λ h. ((sound urn target f).0, h);
                  less_left =
                      ground
                        (arith, e, remaining_new urn known st.promoted_urns (sound urn target f).1);
                })
        ]
      ]

  pub promote_all-Extends :
      (because : String) (urns : List String) (st : Progress)
      → Extends known P st (promote_all by_urn because urns st)
  unfolding promote_all
  promote_all-Extends because [] st = same-Extends st
  promote_all-Extends because (urn ∷ urns) st =
      let first = promote-Extends because urn st in
      let rest = promote_all-Extends because urns (promote by_urn because urn st) in
      record {
        same_books = λ u. rest.same_books u ∙ first.same_books u;
        same_seen = rest.same_seen ∙ first.same_seen;
        same_examined = rest.same_examined ∙ first.same_examined;
        keeps_queue = λ u h. rest.keeps_queue u (first.keeps_queue u h);
        keeps_all = λ h. rest.keeps_all (first.keeps_all h);
        less_left = omega (arith, rest.less_left, first.less_left);
      }
