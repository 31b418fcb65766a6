-- ===== src/Tests/Rounds.antt =====
-- Concrete inputs for the theorems on rounds of src/aiops_apm/poller.py.
use aiops_apm_anomaly_detect.Prelude.{◌≡◌, refl, none, some, [], ◌∷◌, true, false}
use aiops_apm_anomaly_detect.Errors.{ok}
use aiops_apm_anomaly_detect.Storage.Targets.{Target}
use aiops_apm_anomaly_detect.Poller.{
  Collected, Tables, RoundArgs, FunnelArgs, degraded_of, funnel, run_round,
}
use aiops_apm_anomaly_detect.Poller.Closing.{Closed, run_round-Closed}
use aiops_apm_anomaly_detect.Tests.{env, config, registry, stores}

abbrev pub target : Target
target = record {
  target_id = "MT-0001";
  service = "a";
  signal_type = "log";
  source_type = "http";
  domain = "d";
  source_config = [];
  schedule = [];
  enabled = true;
  created_at = 3;
  deleted = false;
}

abbrev funnel_args : FunnelArgs
funnel_args = record {
  env = env;
  validate = λ p. ok config;
  config = record {
    domains = [];
    seed = record { id = "d"; enabled = none; config = [] } ∷ [];
    windows = [];
    blacklist = [];
    fpr = [];
    changes = [];
  };
  registry = registry;
  summary_provider = none;
  stores = stores;
}

abbrev round_args : RoundArgs
round_args = record {
  tenant_id = "t";
  domain = "d";
  trace_id = "trace-1";
  now = 100;
  targets = target ∷ [];
  clock = record { collect_ended = 101; ended_at = 102 };
}

-- A collector that reaches nothing.
abbrev failing : Target → Collected
failing t = record {
  target_id = t.target_id;
  batch = [];
  error = some "unreachable";
  request_params = none;
}

abbrev tables : Tables
tables = record { rounds = []; targets = [] }

run_round-Closed_example :
    let ran = run_round funnel_args round_args (failing target ∷ []) (failing target ∷ []) tables in
    (collected : Tables) × (ran.1
      ≡ funnel funnel_args round_args
          (failing target ∷ [])
          (degraded_of (failing target ∷ []))
          collected)
    × Closed round_args failing ran.1 ran.0
run_round-Closed_example =
    run_round-Closed funnel_args round_args failing (failing target ∷ []) tables refl (λ t. refl)
      (λ t u i k e. refl) (λ c. (λ i. i, λ i. i))
