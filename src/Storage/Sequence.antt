-- ===== src/Storage/Sequence.antt =====
-- src/aiops_apm/storage/sequence.py, InMemorySequenceStore. The date of the clock, as `%Y%m%d`, and
-- the printing of a number with four digits at least are arguments.
pub mod Fresh
use aiops_apm_anomaly_detect.Prelude.{ℕ, ◌+◌, String, Bool, Option, List, [], ◌∷◌, or_else}
use aiops_apm_anomaly_detect.Prelude.Dict as Dict
use aiops_apm_anomaly_detect.Prelude.Dict.{text_pair_key}
use aiops_apm_anomaly_detect.Prelude.Text.{concat}

-- The last number given out, for each prefix and date.
abbrev pub Counters : Type 0
Counters = List ((String × String) × ℕ)

unfoldable pub bump : Counters → String → String → ℕ × Counters
unfolding Dict.get Dict.put
bump counters prefix seq_date =
    let n = or_else (Dict.get counters (prefix, seq_date)) 0 + 1 in
    (n, Dict.put counters (prefix, seq_date) n)

module _ (show_padded : ℕ → String) where
  abbrev pub numbered : String → String → ℕ × Counters → String × Counters
  unfolding concat
  numbered prefix seq_date (n, counters) =
      (concat (prefix ∷ "-" ∷ seq_date ∷ "-" ∷ show_padded n ∷ []), counters)

  unfoldable pub next_id : Counters → String → String → String × Counters
  unfolding bump
  next_id counters seq_date domain = numbered "PR" seq_date (bump counters "PR" seq_date)

  unfoldable pub next_ticket_number : Counters → String → String × Counters
  unfolding bump
  next_ticket_number counters seq_date = numbered "INC" seq_date (bump counters "INC" seq_date)
