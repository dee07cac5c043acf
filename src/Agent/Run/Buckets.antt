-- ===== src/Agent/Run/Buckets.antt =====
-- Every planned asset is booked exactly once.
use sidq.Prelude.{
  ℕ, zero, suc, ◌*◌, length, any-perm, String, str_eq, str_eq_iff, Bool, true, false, ◌||◌, Option,
  none, some, List, [], ◌∷◌, map, any, All, Bool-cases, Option-cases, List-cases, ◌≡◌, refl, subst,
  ap, ◌∙◌, arith, inl, inr, if◌then◌else◌,
}
use sidq.Prelude.Dict.{Dict}
use sidq.Prelude.Sort.{sorted-perm}
use sidq.Prelude.Sets.{member, count}
use sidq.Catalog.Snapshot.{CatalogEntity}
use sidq.Receipt.State.{Show}
use sidq.Agent.Auditor.{Target, AuditRun, CatalogAuditor, rank_le, consequence, plan}
use sidq.Agent.Run.{Progress, start, targets_by_urn, take_target, consider, run_loop, run}
use sidq.Agent.Run.Rounds.{bookings}
use sidq.Agent.Run.Books.{Books, take_target-Books}
use sidq.Agent.Run.Total.{urns, Planned, own-Planned, targets_by_urn-Planned}

abbrev has_urn : String → Target → Bool
has_urn u t = str_eq t.urn u

member-urns : (u : String) (ts : List Target) → member u (urns ts) ≡ any (has_urn u) ts
unfolding member
member-urns u [] = refl
member-urns u (t ∷ ts) = ground (arith, str_eq_iff u t.urn, str_eq_iff t.urn u, member-urns u ts)

any-consequence :
    (show : Show) (casefold : String → String) (a : CatalogAuditor) (u : String)
    (es : List CatalogEntity)
    → any (has_urn u) (map (consequence show casefold a) es)
      ≡ any (λ (e : CatalogEntity). str_eq e.urn u) es
unfolding consequence
any-consequence show casefold a u [] = refl
any-consequence show casefold a u (e ∷ es) = ground (arith, any-consequence show casefold a u es)

-- What holds between two rounds.
record Booked (targets : List Target) (st : Progress) : Type 0 where
  pub booked_once : (u : String) → bookings u st.result ≡ (if member u st.seen then 1 else 0)
  pub planned_queue : All (Planned targets) st.queue
  pub planned_seen : (u : String) → member u st.seen ≡ true → member u (urns targets) ≡ true
  pub none_lost :
      (u : String)
      → member u (urns targets) ≡ true
      → (member u st.seen || any (has_urn u) st.queue) ≡ true

seen_alike :
    (t u : String) (seen : List String)
    → member t seen ≡ true
    → str_eq t u ≡ true
    → member u seen ≡ true
seen_alike t u seen h e = subst (λ v. member v seen ≡ true) ((str_eq_iff t u).0 e) h

module _ (a : CatalogAuditor) (targets : List Target) where
  abbrev by_urn : Dict Target
  by_urn = targets_by_urn targets

  taken-Booked :
      (target : Target) (rest : List Target) (st st' : Progress)
      → st.queue ≡ target ∷ rest
      → Booked targets st
      → member target.urn st.seen ≡ false
      → Books
          (urns targets)
          (Planned targets)
          by_urn
          (targets_by_urn-Planned targets)
          target
          (record st { queue = rest; seen = target.urn ∷ st.seen })
          st'
      → Booked targets st'
  unfolding member count
  taken-Booked target rest st st' q inv e books =
      let queued : All (Planned targets) (target ∷ rest) =
        subst (All (Planned targets)) q inv.planned_queue in
      let seen' : (u : String) → member u st'.seen ≡ (str_eq u target.urn || member u st.seen) =
        λ u. rw books.old_seen refl in
      record {
        booked_once = λ u. ground (
          arith,
          seen' u,
          books.one_booking u,
          inv.booked_once u,
          e,
          str_eq_iff target.urn u,
          str_eq_iff u target.urn,
          seen_alike u target.urn st.seen,
        );
        planned_queue = books.all_queue queued.1;
        planned_seen = λ u h. ground (
          arith,
          seen' u,
          h,
          inv.planned_seen u,
          queued.0,
          str_eq_iff target.urn u,
          str_eq_iff u target.urn,
          seen_alike target.urn u (urns targets),
        );
        none_lost = λ u h. ground (
          arith,
          seen' u,
          h,
          q,
          inv.none_lost u h,
          books.old_queue u,
          str_eq_iff target.urn u,
          str_eq_iff u target.urn,
        );
      }

  skipped-Booked :
      (target : Target) (rest : List Target) (st : Progress)
      → st.queue ≡ target ∷ rest
      → Booked targets st
      → member target.urn st.seen ≡ true
      → Booked targets (record st { queue = rest })
  skipped-Booked target rest st q inv e =
      let queued : All (Planned targets) (target ∷ rest) =
        subst (All (Planned targets)) q inv.planned_queue in
      record {
        booked_once = inv.booked_once;
        planned_queue = queued.1;
        planned_seen = inv.planned_seen;
        none_lost =
            λ u h. ground (arith, h, e, q, inv.none_lost u h, seen_alike target.urn u st.seen);
      }

  abbrev Kept : Option Progress → Type 0
  Kept none = Unit
  Kept (some st) = Booked targets st

  consider-Booked :
      (target : Target) (rest : List Target) (st : Progress)
      → st.queue ≡ target ∷ rest
      → Booked targets st
      → Kept (consider a by_urn target (record st { queue = rest }))
  unfolding consider
  consider-Booked target rest st q inv = elim (Bool-cases (member target.urn st.seen)) [
    | inl e ↦ rw (consider, e) (skipped-Booked target rest st q inv e)
    | inr e ↦
        let st₁ : Progress = record st { queue = rest; seen = target.urn ∷ st.seen } in
        elim (Option-cases (take_target a by_urn target st₁)) [
          | inl f ↦ rw (consider, e, f) tt
          | inr (st', f) ↦
              rw (consider, e, f)
                (taken-Booked target rest st st' q inv e (
                  rw f at (
                    take_target-Books (urns targets) (Planned targets) by_urn
                      (targets_by_urn-Planned targets) a target st₁)))
        ]
  ]

  finished :
      (st : Progress) (r : AuditRun)
      → st.queue ≡ []
      → Booked targets st
      → st.result ≡ r
      → (u : String) → bookings u r ≡ (if member u (urns targets) then 1 else 0)
  finished st r q inv e u =
      ground (arith, q, ap (bookings u) e, inv.booked_once u, inv.planned_seen u, inv.none_lost u)

  run_loop-Booked :
      (fuel : ℕ) (st : Progress) (r : AuditRun)
      → Booked targets st
      → run_loop fuel a by_urn st ≡ some r
      → (u : String) → bookings u r ≡ (if member u (urns targets) then 1 else 0)
  unfolding run_loop
  run_loop-Booked zero st r inv h u = elim (List-cases st.queue) [
    | inl q ↦ finished st r q inv (ground (arith, h, q)) u
    | inr (t, ts, q) ↦ ground (arith, h, q)
  ]
  run_loop-Booked (suc fuel) st r inv h u = elim (List-cases st.queue) [
    | inl q ↦ finished st r q inv (ground (arith, h, q)) u
    | inr (t, ts, q) ↦ elim (Option-cases (consider a by_urn t (record st { queue = ts }))) [
      | inl f ↦ ground (arith, h, q, f)
      | inr (st', f) ↦
          run_loop-Booked fuel st' r (rw f at (consider-Booked t ts st q inv))
            (ground (arith, h, q, f)) u
    ]
  ]

start-Booked : (targets : List Target) → Booked targets (start targets)
unfolding bookings count member
start-Booked targets = record {
  booked_once = λ u. refl;
  planned_queue = own-Planned targets;
  planned_seen = λ u h. ground (arith, h);
  none_lost = λ u h. rw (member-urns u targets) at h;
}

member-plan :
    (show : Show) (casefold : String → String) (a : CatalogAuditor) (u : String)
    → member u (urns (plan show casefold a))
      ≡ any (λ (e : CatalogEntity). str_eq e.urn u) a.snapshot.entities
unfolding plan
member-plan show casefold a u =
    member-urns u (plan show casefold a)
    ∙ any-perm (has_urn u)
        (sorted-perm rank_le (map (consequence show casefold a) a.snapshot.entities))
    ∙ any-consequence show casefold a u a.snapshot.entities

-- A report books every asset of the snapshot exactly once, as examined, vouched for, refused or
-- deferred, and books nothing else.
pub run_books :
    (show : Show) (casefold : String → String) (a : CatalogAuditor) (r : AuditRun)
    → run show casefold a ≡ some r
    → (u : String)
    → bookings u r
      ≡ (if any (λ (e : CatalogEntity). str_eq e.urn u) a.snapshot.entities then 1 else 0)
unfolding run
run_books show casefold a r h u =
    let targets = plan show casefold a in
    run_loop-Booked a targets (2 * length targets) (start targets) r (start-Booked targets) h u
    ∙ ap (λ b. if b then 1 else 0) (member-plan show casefold a u)
