-- ===== src/Pipeline/Correlate/Window.antt =====
-- The window of src/aiops_apm/pipeline/l2_correlate.py that relates a group.
use aiops_apm_anomaly_detect.Prelude.{
  ◌≡◌, ap, ◌↔◌, inl, inr, true, ◌&&◌, List, [], ◌∷◌, In, some_of, some_of-In, In-some_of, arith,
  str_eq, str_eq_iff,
}
use aiops_apm_anomaly_detect.Models.Signal.{ChangeSignal}
use aiops_apm_anomaly_detect.Models.Config.{CorrelationSpec}
use aiops_apm_anomaly_detect.Models.Anomaly.{Anomaly, MetricAnomaly, LogAnomaly, metrics, logs}
use aiops_apm_anomaly_detect.Pipeline.Correlate.{log_ts, is_near, within_window, l2_correlate}

In-metrics :
    (all : List Anomaly) (m : MetricAnomaly) → In m (metrics all) ↔ In (Anomaly.metric m) all
unfolding metrics
In-metrics [] m = (λ i. elim i [ ], λ i. elim i [ ])
In-metrics (Anomaly.metric a ∷ r) m = (
  λ i. elim i [ inl e ↦ inl (ap Anomaly.metric e) | inr j ↦ inr ((In-metrics r m).0 j) ],
  λ i. elim i [ inl e ↦ inl cc | inr j ↦ inr ((In-metrics r m).1 j) ],
)
In-metrics (Anomaly.log a ∷ r) m = (
  λ i. inr ((In-metrics r m).0 i),
  λ i. elim i [ inl e ↦ absurd (ground (arith, e)) | inr j ↦ (In-metrics r m).1 j ],
)

In-logs : (all : List Anomaly) (l : LogAnomaly) → In l (logs all) ↔ In (Anomaly.log l) all
unfolding logs
In-logs [] l = (λ i. elim i [ ], λ i. elim i [ ])
In-logs (Anomaly.log a ∷ r) l = (
  λ i. elim i [ inl e ↦ inl (ap Anomaly.log e) | inr j ↦ inr ((In-logs r l).0 j) ],
  λ i. elim i [ inl e ↦ inl cc | inr j ↦ inr ((In-logs r l).1 j) ],
)
In-logs (Anomaly.metric a ∷ r) l = (
  λ i. inr ((In-logs r l).0 i),
  λ i. elim i [ inl e ↦ absurd (ground (arith, e)) | inr j ↦ (In-logs r l).1 j ],
)

-- A group is related exactly when it has a metric anomaly and a log anomaly of one service whose
-- times differ by no more than the window.
pub l2_correlate-related :
    (cs : CorrelationSpec) (changes : List ChangeSignal) (anomalies : List Anomaly)
    → ((l2_correlate cs changes anomalies).0.related ≡ true) ↔ (
        (m : MetricAnomaly) × (l : LogAnomaly) × In (Anomaly.metric m) anomalies
        × In (Anomaly.log l) anomalies
        × (m.service ≡ l.service)
        × (is_near m.detected_at (log_ts l) cs.metric_log_window_sec ≡ true))
unfolding l2_correlate within_window
l2_correlate-related cs changes anomalies =
    let near = λ (m : MetricAnomaly) (l : LogAnomaly).
      str_eq m.service l.service && is_near m.detected_at (log_ts l) cs.metric_log_window_sec in
    (
      λ t.
          let (m, im, some_log) =
            some_of-In (λ m. some_of (near m) (logs anomalies)) (metrics anomalies) t in
          let (l, il, both) = some_of-In (near m) (logs anomalies) some_log in
          (
            m,
            l,
            (In-metrics anomalies m).0 im,
            (In-logs anomalies l).0 il,
            ground (arith, str_eq_iff m.service l.service),
            ground arith,
          ),
      λ (m, l, im, il, same, close).
          In-some_of (λ m. some_of (near m) (logs anomalies)) (metrics anomalies) m
            ((In-metrics anomalies m).1 im)
            (In-some_of (near m) (logs anomalies) l ((In-logs anomalies l).1 il)
              (rw ((str_eq_iff m.service l.service).1 same) close)),
    )
