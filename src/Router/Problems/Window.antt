-- ===== src/Router/Problems/Window.antt =====
-- src/aiops_apm/router/problems.py, _analysis_window: the time window of the logs for an analysis.
-- Instants are microseconds, as in the records.
use aiops_apm_anomaly_detect.Prelude.{
  ℕ, ◌+◌, ◌-◌, ◌*◌, ◌≤◌, ◌≡◌, ◌⊎◌, arith, or_else, ltb, if◌then◌else◌,
}
use aiops_apm_anomaly_detect.Models.Record.{ProblemRecord}

abbrev pub minutes : ℕ → ℕ
minutes n = n * 60_000_000

-- `_WINDOW_PAD`, `_WINDOW_MIN` and `_WINDOW_MAX`
abbrev pub window_pad : ℕ
window_pad = minutes 10

abbrev pub window_min : ℕ
window_min = minutes 30

abbrev pub window_max : ℕ
window_max = minutes 1440

abbrev pub first_seen : ProblemRecord → ℕ
first_seen r = or_else r.first_seen_at r.detected_at

abbrev pub last_seen : ProblemRecord → ℕ
last_seen r = or_else r.last_seen_at r.detected_at

-- The three corrections of the start, in the order of the code.
abbrev pub swapped : ℕ → ℕ → ℕ
swapped start end = if ltb end start then end - window_min else start

abbrev pub widened : ℕ → ℕ → ℕ
widened start end = if ltb (end - start) window_min then end - window_min else start

abbrev pub narrowed : ℕ → ℕ → ℕ
narrowed start end = if ltb window_max (end - start) then end - window_max else start

unfoldable pub analysis_window : ℕ → ProblemRecord → ℕ × ℕ
analysis_window now r =
    let last = last_seen r + window_pad in
    let end = if ltb now last then now else last in
    (narrowed (widened (swapped (first_seen r - window_pad) end) end) end, end)

-- When now, the first and the last sight of a problem are all later than a day after the origin of
-- time: the window ends by now, at now or at the last sight and its margin, and spans at least 30
-- minutes and at most 24 hours; it starts no later than the first sight less its margin unless it
-- spans 24 hours, and no earlier unless it spans 30 minutes.
pub analysis_window_bounds :
    (now : ℕ) (r : ProblemRecord)
    → window_max ≤ now
    → window_max ≤ first_seen r
    → window_max ≤ last_seen r
    → let (start, end) = analysis_window now r in
      (end ≤ now)
      × (end ≤ last_seen r + window_pad)
      × ((end ≡ now) ⊎ (end ≡ last_seen r + window_pad))
      × (start + window_min ≤ end)
      × (end ≤ start + window_max)
      × ((start ≤ first_seen r - window_pad) ⊎ (end ≡ start + window_max))
      × ((first_seen r - window_pad ≤ start) ⊎ (end ≡ start + window_min))
unfolding analysis_window
analysis_window_bounds now r h f l = ground arith
