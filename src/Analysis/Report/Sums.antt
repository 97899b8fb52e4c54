-- ===== src/Analysis/Report/Sums.antt =====
-- An experiment's report adds up.
use downshift.Base.{
  ℕ, ◌+◌, ◌≤◌, ◌≡◌, ◌↔◌, refl, ◌≢◌, inl, inr, Option, none, some, Result-cases, Bool, true, any,
  not, Bool-cases, All, false, List, [], ◌∷◌, ok, ltb, count, filter, arith, count-le-length,
}
use downshift.Decision.{SessionMode, RoutingDecision, fixed_baseline}
use downshift.Runs.Outcome.{TrialOutcome}
use downshift.Experiment.Dispatch.{same_mode, is_evaluated}
use downshift.Runs.{RunResult, EvidenceKind}
use downshift.Analysis.{ResolvedTrial, decision_in, Pairs, by_pair}
use downshift.Analysis.Report.{
  ModeCounts, Report, outcomes, finished, has_decision, decided, is_weak, is_normal, report_of,
  validate_report, aggregate_report, is_mixed, is_unclassified, from_classifier, grouped,
}

abbrev pub sum_modes : (ModeCounts → ℕ) → Report → ℕ
sum_modes field r = field r.weak_only + field r.strong_only + field r.routed

-- What an accepted report's counts satisfy.
pub record AddsUp (scheduled : ℕ) (r : Report) : Type 0 where
  pub planned : r.counts.evaluated + r.counts.unavailable + r.counts.incomplete ≡ scheduled
  pub evaluated : sum_modes (λ m. m.pass + m.fail) r ≡ r.counts.evaluated
  pub unavailable : sum_modes (λ m. m.unavailable) r ≡ r.counts.unavailable
  pub tiers : r.routing.weak + r.routing.strong ≡ r.routing.decisions
  pub sources : r.routing.normal + r.routing.fallback ≡ r.routing.decisions

validates :
    (r : Report)
    → r.counts.evaluated + r.counts.unavailable + r.counts.incomplete ≡ r.counts.planned
    → r.routing.weak + r.routing.strong ≡ r.routing.decisions
    → r.routing.normal + r.routing.fallback ≡ r.routing.decisions
    → validate_report r ≡ ok r
unfolding validate_report
validates r e f g = ground arith

not_over : (n m : ℕ) → n ≤ m → ltb m n ≡ false
not_over n m h = ground arith

module _ {F : Type 0} where
  finished_split :
      (trials : List (ResolvedTrial F))
      → count (λ t. is_evaluated t.outcome) trials + outcomes TrialOutcome.unavailable trials
        ≡ finished trials
  finished_split [] = refl
  finished_split (t ∷ ts) = ground (arith, finished_split ts)

  -- The sum of the modes' counts of an outcome.
  modes_split :
      (o : TrialOutcome) (trials : List (ResolvedTrial F))
      → outcomes o (filter (λ t. same_mode t.mode SessionMode.weak_only) trials)
          + outcomes o (filter (λ t. same_mode t.mode SessionMode.strong_only) trials)
          + outcomes o (filter (λ t. same_mode t.mode SessionMode.routed) trials)
        ≡ outcomes o trials
  modes_split o [] = refl
  modes_split o (t ∷ ts) = ground (arith, modes_split o ts)

  evaluated_split :
      (trials : List (ResolvedTrial F))
      → outcomes TrialOutcome.pass trials + outcomes TrialOutcome.fail trials
        ≡ count (λ t. is_evaluated t.outcome) trials
  evaluated_split [] = refl
  evaluated_split (t ∷ ts) = ground (arith, evaluated_split ts)

  report_of-AddsUp :
      (scheduled planned : ℕ) (trials : List (ResolvedTrial F))
      → finished trials ≤ scheduled
      → AddsUp scheduled (report_of scheduled planned trials)
  unfolding report_of
  report_of-AddsUp scheduled planned trials h =
      let ds = filter has_decision trials in
      record {
        planned = omega (arith, h, finished_split trials);
        evaluated = omega (
          arith,
          modes_split TrialOutcome.pass trials,
          modes_split TrialOutcome.fail trials,
          evaluated_split trials,
        );
        unavailable = omega (arith, modes_split TrialOutcome.unavailable trials);
        tiers = omega (
          arith,
          count-le-length (λ t. decided (λ d. is_weak d.selected_tier) (decision_in t.result)) ds,
        );
        sources = omega (
          arith,
          count-le-length (λ t. decided (λ d. is_normal d.source) (decision_in t.result)) ds,
        );
      }

  abbrev IsOfKind : EvidenceKind → Option (RunResult F) → Type 0
  IsOfKind kind none = Unit
  IsOfKind kind (some r) = r.evidence_kind ≡ kind

  abbrev IsNotFixed : Option (RoutingDecision F) → Type 0
  IsNotFixed none = Unit
  IsNotFixed (some d) = d.source ≢ fixed_baseline

  -- A trial whose result is of the manifest's kind of evidence, and whose decision, if it is routed, is
  -- not that of a fixed baseline.
  abbrev pub IsComparable : EvidenceKind → ResolvedTrial F → Type 0
  IsComparable kind t =
      IsOfKind kind t.result × (t.mode ≡ SessionMode.routed → IsNotFixed (decision_in t.result))

  is_mixed_iff :
      (kind : EvidenceKind) (o : Option (RunResult F)) → (is_mixed kind o ≡ false) ↔ IsOfKind kind o
  is_mixed_iff kind none = (λ h. tt, λ h. refl)
  is_mixed_iff kind (some r) = (λ h. ground arith, λ h. ground arith)

  IsNotFixed-iff :
      (o : Option (RoutingDecision F))
      → (decided (λ d. not (from_classifier d.source)) o ≡ false) ↔ IsNotFixed o
  IsNotFixed-iff none = (λ h. tt, λ h. refl)
  IsNotFixed-iff (some d) = (λ h. ground arith, λ h. ground arith)

  is_unclassified_iff :
      (t : ResolvedTrial F)
      → (is_unclassified t ≡ false)
        ↔ (t.mode ≡ SessionMode.routed → IsNotFixed (decision_in t.result))
  is_unclassified_iff t =
      let fixed = IsNotFixed-iff (decision_in t.result) in
      (
        λ h m. fixed.0 (ground (arith, m)),
        λ h. elim (Bool-cases (same_mode t.mode SessionMode.routed)) [
          | inl e ↦ let clear = fixed.1 (h (ground (arith, e))) in ground (arith, e)
          | inr e ↦ ground (arith, e)
        ],
      )

  IsComparable-iff :
      (kind : EvidenceKind) (trials : List (ResolvedTrial F))
      → ((any (λ t. is_mixed kind t.result) trials ≡ false) × (any is_unclassified trials ≡ false))
        ↔ All (IsComparable kind) trials
  IsComparable-iff kind [] = (λ _. tt, λ _. (refl, refl))
  IsComparable-iff kind (t ∷ ts) = (
    λ (m, u).
        let a = (is_mixed_iff kind t.result).0 (ground arith) in
        let b = (is_unclassified_iff t).0 (ground arith) in
        ((a, b), (IsComparable-iff kind ts).0 (ground arith, ground arith)),
    λ ((a, b), rest).
        let (m, u) = (IsComparable-iff kind ts).1 rest in
        let mixed = (is_mixed_iff kind t.result).1 a in
        let unclassified = (is_unclassified_iff t).1 b in (ground arith, ground arith),
  )

  module _ (kind : EvidenceKind) (shape_ok : Report → Bool) (scheduled planned : ℕ)
      (trials : List (ResolvedTrial F)) where
    -- What `aggregateExperiment` asks of the trials.
    pub record IsReportable : Type 0 where
      pub comparable : All (IsComparable kind) trials
      pub groups : Pairs F
      pub grouping : by_pair trials ≡ ok groups
      pub within : finished trials ≤ scheduled
      pub shape : shape_ok (report_of scheduled planned trials) ≡ true

    reportable :
        {r : Report} → aggregate_report kind shape_ok scheduled planned trials ≡ ok r → IsReportable
    unfolding aggregate_report
    reportable h = elim (Result-cases (by_pair trials)) [
      | inr (e, p) ↦ absurd (ground (arith, p))
      | inl (ps, p) ↦ record {
        comparable = (IsComparable-iff kind trials).0 (ground (arith, p), ground (arith, p));
        groups = ps;
        grouping = p;
        within = ground (arith, p);
        shape = ground (arith, p);
      }
    ]

    accepts :
        IsReportable
        → aggregate_report kind shape_ok scheduled planned trials
          ≡ ok (report_of scheduled planned trials)
    unfolding aggregate_report
    accepts h =
        let sums = report_of-AddsUp scheduled planned trials h.within in
        let (m, u) = (IsComparable-iff kind trials).1 h.comparable in
        let valid = validates _ sums.planned sums.tiers sums.sources in
        let g : grouped trials ≡ ok h.groups = rw (grouped, h.grouping) refl in
        rw (aggregate_report, m, u, g, not_over _ _ h.within, h.shape) valid

    -- A report is made exactly when every result is of the manifest's kind of evidence, no routed trial
    -- has the decision of a fixed baseline, the trials can be grouped (no two are of one task,
    -- repetition and mode), at most as many are finished as are scheduled, and the report passes the
    -- test of its finite numbers and its schema; then its counts add up: to the schedule's length, over
    -- the modes, over the tiers, and over the sources of decisions.
    pub aggregate_report_ok : IsReportable ↔ (
        (r : Report) × (aggregate_report kind shape_ok scheduled planned trials ≡ ok r)
        × AddsUp scheduled r)
    aggregate_report_ok = (
      λ h. (
        report_of scheduled planned trials,
        accepts h,
        report_of-AddsUp scheduled planned trials h.within,
      ),
      λ (r, e, _). reportable e,
    )
