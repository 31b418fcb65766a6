-- ===== src/Pipeline/Verify/Severity.antt =====
-- The severity of a record.
use aiops_apm_anomaly_detect.Prelude.{
  ℕ, zero, suc, ◌≤◌, ◌≡◌, refl, sym, ◌∙◌, ◌⊎◌, inl, inr, String, Bool, true, ◌&&◌, leb, some_of-In,
  In-some_of, str_eq_iff, List, [], ◌∷◌, In, arith, Bool-cases, some_of,
}
use aiops_apm_anomaly_detect.Models.Anomaly.{Anomaly, MetricAnomaly, LogAnomaly, severity_of}
use aiops_apm_anomaly_detect.Pipeline.Verify.{
  severity_rank, rank_name, top_rank, calibrate_severity, is_high_metric, is_high_log,
}

top_rank-ge :
    (others : List Anomaly) (a : Anomaly)
    → In a others
    → severity_rank (severity_of a) ≤ top_rank others
unfolding top_rank
top_rank-ge [] a i = elim i [ ]
top_rank-ge (x ∷ xs) a (inl e) = rw e (ground arith)
top_rank-ge (x ∷ xs) a (inr i) = ground (arith, top_rank-ge xs a i)

severity_rank-le : (s : String) → severity_rank s ≤ 2
severity_rank-le s = ground arith

top_rank-le : (others : List Anomaly) → top_rank others ≤ 2
unfolding top_rank
top_rank-le [] = omega arith
top_rank-le (a ∷ others) = ground (arith, top_rank-le others, severity_rank-le (severity_of a))

severity_rank-rank_name : (n : ℕ) → n ≤ 2 → severity_rank (rank_name n) ≡ n
severity_rank-rank_name zero h = refl
severity_rank-rank_name (suc zero) h = refl
severity_rank-rank_name (suc (suc zero)) h = refl
severity_rank-rank_name (suc (suc (suc n))) h = absurd (omega arith)

-- A metric anomaly and a log anomaly are both high; they may be of different services.
abbrev pub BothHigh : List Anomaly → Type 0
BothHigh group =
    ((m : MetricAnomaly) × In (Anomaly.metric m) group × (m.severity ≡ "high"))
    × ((l : LogAnomaly) × In (Anomaly.log l) group × (l.severity ≡ "high"))

abbrev pub Ranked : String → Type 0
Ranked severity = (severity ≡ "warning") ⊎ ((severity ≡ "high") ⊎ (severity ≡ "critical"))

-- The severity is a ranked one, and the highest one of the group.
abbrev pub Highest : List Anomaly → String → Type 0
Highest group severity =
    Ranked severity
    × ((a : Anomaly) → In a group → severity_rank (severity_of a) ≤ severity_rank severity)
    × (((a : Anomaly) × In a group × (severity_rank (severity_of a) ≡ severity_rank severity))
        ⊎ (severity ≡ "warning"))

metric_in :
    (group : List Anomaly) (a : Anomaly)
    → In a group
    → is_high_metric a ≡ true
    → (m : MetricAnomaly) × In (Anomaly.metric m) group × (m.severity ≡ "high")
metric_in group (Anomaly.metric m) i h = (m, i, (str_eq_iff m.severity "high").0 h)
metric_in group (Anomaly.log l) i h = absurd (ground arith)

log_in :
    (group : List Anomaly) (a : Anomaly)
    → In a group
    → is_high_log a ≡ true
    → (l : LogAnomaly) × In (Anomaly.log l) group × (l.severity ≡ "high")
log_in group (Anomaly.log l) i h = (l, i, (str_eq_iff l.severity "high").0 h)
log_in group (Anomaly.metric m) i h = absurd (ground arith)

some_of-BothHigh :
    (group : List Anomaly)
    → some_of is_high_metric group ≡ true
    → some_of is_high_log group ≡ true
    → BothHigh group
some_of-BothHigh group e f =
    let (a, i, h) = some_of-In is_high_metric group e in
    let (b, j, k) = some_of-In is_high_log group f in (metric_in group a i h, log_in group b j k)

BothHigh-some_of :
    (group : List Anomaly)
    → BothHigh group
    → (some_of is_high_metric group ≡ true) × (some_of is_high_log group ≡ true)
BothHigh-some_of group ((m, i, h), (l, j, k)) = (
  In-some_of is_high_metric group (Anomaly.metric m) i ((str_eq_iff m.severity "high").1 h),
  In-some_of is_high_log group (Anomaly.log l) j ((str_eq_iff l.severity "high").1 k),
)

top_rank-attained :
    (group : List Anomaly)
    → ((a : Anomaly) × In a group × (severity_rank (severity_of a) ≡ top_rank group))
      ⊎ (top_rank group ≡ 0)
unfolding top_rank
top_rank-attained [] = inr refl
top_rank-attained (x ∷ xs) = elim (Bool-cases (leb (top_rank xs) (severity_rank (severity_of x)))) [
  | inl e ↦ inl (x, inl refl, rw e refl)
  | inr e ↦ rw e (elim (top_rank-attained xs) [ inl (a, i, h) ↦ inl (a, inr i, h) | inr h ↦ inr h ])
]

rank_name-Ranked : (n : ℕ) → Ranked (rank_name n)
rank_name-Ranked zero = inl refl
rank_name-Ranked (suc zero) = inr (inl refl)
rank_name-Ranked (suc (suc n)) = inr (inr refl)

top_rank-Highest : (group : List Anomaly) → Highest group (rank_name (top_rank group))
top_rank-Highest group =
    let rank = severity_rank-rank_name (top_rank group) (top_rank-le group) in
    (
      rank_name-Ranked (top_rank group),
      λ a i. rw rank (top_rank-ge group a i),
      elim (top_rank-attained group) [
        | inl (a, i, h) ↦ inl (a, i, h ∙ sym rank)
        | inr h ↦ inr (rw h refl)
      ],
    )

-- The calibrated severity of a related group that has a high metric anomaly and a high log anomaly,
-- of whatever services, is "critical"; that of any other group is the highest severity of its
-- anomalies, where any but "high" and "critical" counts as "warning".
pub calibrate_severity_lem :
    (group : List Anomaly) (related : Bool)
    → ((related ≡ true) × BothHigh group × (calibrate_severity group related ≡ "critical"))
      ⊎ ((¬ ((related ≡ true) × BothHigh group)) × Highest group (calibrate_severity group related))
unfolding calibrate_severity
calibrate_severity_lem [] related =
    inr (λ (r, ((m, i, h), k)). elim i [ ], (inl refl, λ a i. elim i [ ], inr refl))
calibrate_severity_lem (x ∷ xs) related =
    let group = x ∷ xs in
    let test = related && (some_of is_high_metric group && some_of is_high_log group) in
    elim (Bool-cases test) [
      | inl e ↦ inl (ground arith, some_of-BothHigh group (ground arith) (ground arith), rw e refl)
      | inr e ↦ inr (
        λ (r, both). let (m, l) = BothHigh-some_of group both in absurd (ground arith),
        rw e (top_rank-Highest group),
      )
    ]
