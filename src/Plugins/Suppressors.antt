-- ===== src/Plugins/Suppressors.antt =====
-- src/aiops_apm/suppressors/blacklist.py and maintenance_window.py. The entries that the stores load
-- have the key "reason"; where its value is `None`, the text has "None".
use aiops_apm_anomaly_detect.Prelude.{
  String, Bool, ◌&&◌, Option, none, some, List, [], ◌∷◌, map, or_else, leb, if◌then◌else◌, str_eq,
}
use aiops_apm_anomaly_detect.Prelude.Text.{concat}
use aiops_apm_anomaly_detect.Models.Signal.{Signal, service_of, timestamp_of}
use aiops_apm_anomaly_detect.Plugins.{MaintenanceWindow, BlacklistEntry, BatchCheck}

-- `signal.metric` or `signal.level`
abbrev pub blacklisted_name : Signal → String
blacklisted_name (Signal.metric s) = s.metric
blacklisted_name (Signal.log s) = s.level

abbrev pub blacklist_hit : BlacklistEntry → Signal → Bool
blacklist_hit entry signal =
    str_eq entry.service (service_of signal) && str_eq entry.signal (blacklisted_name signal)

unfoldable pub blacklist_reason : List BlacklistEntry → Signal → Option String
unfolding concat
blacklist_reason [] signal = none
blacklist_reason (entry ∷ entries) signal =
    if blacklist_hit entry signal
    then some (concat ("blacklist: " ∷ or_else entry.reason "None" ∷ []))
    else blacklist_reason entries signal

abbrev pub window_hit : MaintenanceWindow → Signal → Bool
window_hit w signal =
    str_eq w.service (service_of signal)
    && (leb w.start_at (timestamp_of signal) && leb (timestamp_of signal) w.end_at)

unfoldable pub window_reason : List MaintenanceWindow → Signal → Option String
unfolding concat
window_reason [] signal = none
window_reason (w ∷ windows) signal =
    if window_hit w signal
    then some (concat ("maintenance_window: " ∷ or_else w.reason "None" ∷ []))
    else window_reason windows signal

unfoldable pub blacklist_check : BatchCheck
unfolding blacklist_reason
blacklist_check signals ctx params = map (λ s. (s, blacklist_reason ctx.blacklist s)) signals

unfoldable pub window_check : BatchCheck
unfolding window_reason
window_check signals ctx params = map (λ s. (s, window_reason ctx.maintenance_windows s)) signals
