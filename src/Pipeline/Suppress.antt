-- ===== src/Pipeline/Suppress.antt =====
-- src/aiops_apm/pipeline/l0_suppress.py. Two signals are the same object when their `ref` is.
pub mod Survivors
use aiops_apm_anomaly_detect.Prelude.{
  ℕ, String, Bool, true, false, not, ◌&&◌, Option, none, some, List, [], ◌∷◌, ◌++◌, keep, some_of,
  ◌==◌, if◌then◌else◌, str_eq,
}
use aiops_apm_anomaly_detect.Errors.{Result, ok, ◌>>=◌}
use aiops_apm_anomaly_detect.Models.Signal.{Signal, ref_of}
use aiops_apm_anomaly_detect.Models.Config.{SuppressorSpec}
use aiops_apm_anomaly_detect.Plugins.{Plugin, Registry, SuppressContext, get}

-- An entry of `ctx.suppressed`.
pub record Suppressed : Type 0 where
  pub signal : Signal
  pub reason : String
  pub suppressor : String

-- `any(signal is item["signal"] for item in suppressed)`
abbrev pub is_suppressed : List Suppressed → Signal → Bool
is_suppressed suppressed s = some_of (λ i. ref_of s == ref_of i.signal) suppressed

-- One result of a suppressor.
unfoldable pub note : String → Signal × Option String → List Suppressed → List Suppressed
note name (s, none) suppressed = suppressed
note name (s, some reason) suppressed =
    if not (str_eq reason "") && not (is_suppressed suppressed s)
    then suppressed ++ record { signal = s; reason = reason; suppressor = name } ∷ []
    else suppressed

unfoldable pub note_all : String → List (Signal × Option String) → List Suppressed → List Suppressed
unfolding note
note_all name [] suppressed = suppressed
note_all name (r ∷ rs) suppressed = note_all name rs (note name r suppressed)

-- `isinstance(suppressor, Suppressor)`, and the results of its batch check.
abbrev pub results_of :
    Plugin → SuppressorSpec → List Signal → SuppressContext → List (Signal × Option String)
results_of (Plugin.suppressor check) sc signals ctx = check signals ctx sc.params
results_of (Plugin.detector name detect) sc signals ctx = []
results_of Plugin.other sc signals ctx = []

unfoldable pub suppress_loop :
    List SuppressorSpec
    → Registry
    → SuppressContext
    → List Signal
    → List Suppressed
    → Result (List Suppressed)
unfolding note_all get
suppress_loop [] registry ctx signals suppressed = ok suppressed
suppress_loop (sc ∷ specs) registry ctx signals suppressed = do
  plugin ← get registry "suppressor" sc.name
  suppress_loop specs registry ctx signals
      (note_all sc.name (results_of plugin sc signals ctx) suppressed)

-- The new `ctx.suppressed` and `ctx.signals`.
unfoldable pub l0_suppress :
    List SuppressorSpec
    → Registry
    → SuppressContext
    → List Signal
    → Result (List Suppressed × List Signal)
unfolding suppress_loop
l0_suppress specs registry ctx signals = do
  suppressed ← suppress_loop specs registry ctx signals []
  ok (suppressed, keep (λ s. not (is_suppressed suppressed s)) signals)
