-- ===== src/Pipeline/Detect/Isolation.antt =====
-- Members of the result of src/aiops_apm/pipeline/l1_detect.py, by the detectors that made them.
use aiops_apm_anomaly_detect.Prelude.{
  ◌≡◌, refl, sym, ap, subst, ◌∙◌, ◌↔◌, ◌⊎◌, inl, inr, String, true, List, [], ◌∷◌, map, In, In-map,
  map-In, In-append_left, In-append_right, In-append_cases, Bool-cases, is_nonempty, if◌then◌else◌,
}
use aiops_apm_anomaly_detect.Errors.{ok, >>=-eq-ok, Result-cases}
use aiops_apm_anomaly_detect.Models.Signal.{Signal}
use aiops_apm_anomaly_detect.Models.Anomaly.{Anomaly, MetricAnomaly, LogAnomaly}
use aiops_apm_anomaly_detect.Models.Config.{DetectorSpec}
use aiops_apm_anomaly_detect.Plugins.{Plugin, Registry, DetectMethod, get}
use aiops_apm_anomaly_detect.Pipeline.Filter.{filter_signals}
use aiops_apm_anomaly_detect.Pipeline.Detect.{stamp, detected, l1_detect}

-- The anomaly is the original but for the severity, and for the method of a metric anomaly.
pub data Stamped (severity name : String) : Anomaly → Anomaly → Type 0 where
  stamped_metric :
      (m : MetricAnomaly)
      → Stamped severity name (Anomaly.metric m) (
          Anomaly.metric (record {
            tenant_id = m.tenant_id;
            service = m.service;
            metric = m.metric;
            value = m.value;
            baseline = m.baseline;
            method = name;
            severity = severity;
            detected_at = m.detected_at;
            labels = m.labels;
          }))
  stamped_log :
      (l : LogAnomaly)
      → Stamped severity name (Anomaly.log l) (Anomaly.log (record l { severity = severity }))

stamp-Stamped :
    (severity name : String) (a : Anomaly) → Stamped severity name a (stamp severity name a)
unfolding stamp
stamp-Stamped severity name (Anomaly.metric m) = Stamped.stamped_metric m
stamp-Stamped severity name (Anomaly.log l) = Stamped.stamped_log l

Stamped-stamp :
    (severity name : String) (a b : Anomaly) → Stamped severity name a b → b ≡ stamp severity name a
unfolding stamp
Stamped-stamp severity name a b (Stamped.stamped_metric m) = refl
Stamped-stamp severity name a b (Stamped.stamped_log l) = refl

-- The anomaly is a detector's result on signals that its spec matches, with the spec's severity.
pub record Made (registry : Registry) (signals : List Signal) (dc : DetectorSpec) (a : Anomaly)
    : Type 0 where
  pub name : String
  pub detect : DetectMethod
  pub plugin : get registry "detector" dc.plugin ≡ ok (Plugin.detector name detect)
  pub matched : is_nonempty (filter_signals signals dc.signal) ≡ true
  pub found : List Anomaly
  pub result : detect (filter_signals signals dc.signal) dc.params ≡ ok found
  pub original : Anomaly
  pub from : In original found
  pub stamped : Stamped dc.severity name original a

detected-cases :
    (plugin : Plugin) (dc : DetectorSpec) (matched : List Signal) (a : Anomaly)
    → In a (detected plugin dc matched)
    → (name : String) × (detect : DetectMethod) × (found : List Anomaly) × (original : Anomaly)
      × (plugin ≡ Plugin.detector name detect)
      × (detect matched dc.params ≡ ok found)
      × In original found
      × (a ≡ stamp dc.severity name original)
unfolding detected
detected-cases (Plugin.detector name detect) dc matched a i =
    elim (Result-cases (detect matched dc.params)) [
      | inr (e, failed) ↦ let none_made : In a [] = rw failed at i in elim none_made [ ]
      | inl (found, result) ↦
          let made : In a (map (stamp dc.severity name) found) = rw result at i in
          let (original, from, stamped) = map-In (stamp dc.severity name) found a made in
          (name, detect, found, original, refl, result, from, stamped)
    ]
detected-cases (Plugin.suppressor check) dc matched a i = elim i [ ]
detected-cases Plugin.other dc matched a i = elim i [ ]

-- What one spec adds.
abbrev added : Plugin → DetectorSpec → List Signal → List Anomaly
added plugin dc signals =
    if is_nonempty (filter_signals signals dc.signal)
    then detected plugin dc (filter_signals signals dc.signal)
    else []

added-Made :
    (registry : Registry) (signals : List Signal) (dc : DetectorSpec) (plugin : Plugin)
    (a : Anomaly)
    → get registry "detector" dc.plugin ≡ ok plugin
    → In a (added plugin dc signals) ↔ Made registry signals dc a
unfolding detected
added-Made registry signals dc plugin a got = (
  λ i. elim (Bool-cases (is_nonempty (filter_signals signals dc.signal))) [
    | inr e ↦ let none_made : In a [] = rw e at i in elim none_made [ ]
    | inl e ↦
        let made : In a (detected plugin dc (filter_signals signals dc.signal)) = rw e at i in
        let (name, detect, found, original, same, result, from, stamped) =
          detected-cases plugin dc (filter_signals signals dc.signal) a made in
        record {
          name = name;
          detect = detect;
          plugin = got ∙ ap ok same;
          matched = e;
          found = found;
          result = result;
          original = original;
          from = from;
          stamped =
              subst (Stamped dc.severity name original) (sym stamped)
                (stamp-Stamped dc.severity name original);
        }
  ],
  λ m.
      let both : ok plugin ≡ ok (Plugin.detector m.name m.detect) = sym got ∙ m.plugin in
      let same : plugin ≡ Plugin.detector m.name m.detect = cc in
      rw (m.matched, same, Stamped-stamp dc.severity m.name m.original a m.stamped)
        (rw (detected, m.result) (In-map (stamp dc.severity m.name) m.found m.original m.from)),
)

-- When the detection returns, an anomaly is a member of the result if and only if it was one before,
-- or if a configured detector, on signals that its spec matches, returned it, up to its severity,
-- which is that of the spec, and the method of a metric anomaly, which is the detector's name. What
-- another detector raises does not matter.
pub l1_detect-isolation :
    (specs : List DetectorSpec) (registry : Registry) (signals : List Signal)
    (before after : List Anomaly) (a : Anomaly)
    → l1_detect specs registry signals before ≡ ok after
    → In a after ↔ (In a before ⊎ ((dc : DetectorSpec) × In dc specs × Made registry signals dc a))
unfolding l1_detect
l1_detect-isolation [] registry signals before after a run =
    let same : before ≡ after = cc in
    subst
      (λ l. In a l ↔ (In a before ⊎ ((dc : DetectorSpec) × In dc [] × Made registry signals dc a)))
      same (λ i. inl i, λ t. elim t [ inl i ↦ i | inr (dc, i, m) ↦ elim i [ ] ])
l1_detect-isolation (dc ∷ specs) registry signals before after a run =
    let (plugin, got, next) = >>=-eq-ok (get registry "detector" dc.plugin) _ run in
    let ih = l1_detect-isolation specs registry signals _ after a next in
    let here = added-Made registry signals dc plugin a got in
    (
      λ i. elim (ih.0 i) [
        | inr (d, j, m) ↦ inr (d, inr j, m)
        | inl j ↦ elim (In-append_cases a before (added plugin dc signals) j) [
          | inl k ↦ inl k
          | inr k ↦ inr (dc, inl refl, here.0 k)
        ]
      ],
      λ t. ih.1 (elim t [
        | inl k ↦ inl (In-append_left a before (added plugin dc signals) k)
        | inr (d, i, m) ↦ elim i [
          | inr j ↦ inr (d, j, m)
          | inl same ↦ inl (
              In-append_right a before (added plugin dc signals)
                (here.1 (subst (λ u. Made registry signals u a) same m)))
        ]
      ]),
    )
