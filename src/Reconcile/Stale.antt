-- ===== src/Reconcile/Stale.antt =====
-- Lemmas on the records that src/aiops_apm/reconcile.py closes.
use aiops_apm_anomaly_detect.Prelude.{
  ◌≡◌, refl, sym, subst, ◌∙◌, ◌↔◌, inl, inr, String, Bool, true, List, [], ◌∷◌, map, all_of, In,
  In-map, map-In, arith, is_nonempty,
}
use aiops_apm_anomaly_detect.Prelude.Dict as Dict
use aiops_apm_anomaly_detect.Prelude.Dict.{string_key, text_triple_key}
use aiops_apm_anomaly_detect.Prelude.Int.{ℤ, pos, leb_ℤ}
use aiops_apm_anomaly_detect.Models.Anomaly.{Anomaly}
use aiops_apm_anomaly_detect.Models.Fingerprint.{Hashing, anomaly_key}
use aiops_apm_anomaly_detect.Storage.DetectionState.{StateRows, rows_of_domain}
use aiops_apm_anomaly_detect.Storage.DetectionState.Laws.{get-rows_of_domain}
use aiops_apm_anomaly_detect.Storage.Records.{Row}
use aiops_apm_anomaly_detect.Reconcile.{record_anomalies, record_anomaly_keys, misses, is_stale}

all_of-In {ℓ} :
    {A : Type ℓ} (p : A → Bool) (xs : List A)
    → (all_of p xs ≡ true) ↔ ((a : A) → In a xs → p a ≡ true)
all_of-In p [] = (λ t a i. elim i [ ], λ f. refl)
all_of-In p (x ∷ xs) = (
  λ t a i. elim i [
    | inl e ↦ subst (λ u. p u ≡ true) (sym e) (ground arith)
    | inr j ↦ (all_of-In p xs).0 (ground arith) a j
  ],
  λ f. rw (f x (inl refl)) ((all_of-In p xs).1 (λ a i. f a (inr i))),
)

is_nonempty-map {ℓ κ} :
    {A : Type ℓ} {B : Type κ} (f : A → B) (xs : List A) → is_nonempty (map f xs) ≡ is_nonempty xs
is_nonempty-map f [] = refl
is_nonempty-map f (x ∷ xs) = refl

-- A record counts as over exactly when it has anomalies and the store has, for each of them, at
-- least `resolve_after_rounds` rounds without it since it was last seen.
pub is_stale-misses :
    (h : Hashing) (resolve_after_rounds : ℤ) (states : StateRows) (tenant : String) (row : Row)
    → (is_stale h resolve_after_rounds (rows_of_domain states tenant row.base.domain) row ≡ true)
      ↔ ((is_nonempty (record_anomalies row) ≡ true)
          × ((a : Anomaly)
              → In a (record_anomalies row)
              → leb_ℤ resolve_after_rounds
                  (pos (misses (Dict.get states (tenant, row.base.domain, anomaly_key h a))))
                ≡ true))
unfolding is_stale record_anomaly_keys
is_stale-misses h n states tenant row =
    let keys = map (anomaly_key h) (record_anomalies row) in
    let by_domain = rows_of_domain states tenant row.base.domain in
    let enough = λ (k : String). leb_ℤ n (pos (misses (Dict.get by_domain k))) in
    let same = λ (k : String). get-rows_of_domain states tenant row.base.domain k in
    let filled = is_nonempty-map (anomaly_key h) (record_anomalies row) in
    (
      λ t.
          let all : all_of enough keys ≡ true = ground arith in
          (
            sym filled ∙ (ground arith),
            λ a i.
                subst (λ s. leb_ℤ n (pos (misses s)) ≡ true) (same (anomaly_key h a))
                  ((all_of-In enough keys).0 all (anomaly_key h a)
                    (In-map (anomaly_key h) (record_anomalies row) a i)),
          ),
      λ (some_there, each).
          let all : all_of enough keys ≡ true = (all_of-In enough keys).1 (λ k i.
            let (a, j, e) = map-In (anomaly_key h) (record_anomalies row) k i in
            subst (λ u. enough u ≡ true) (sym e)
              (subst (λ s. leb_ℤ n (pos (misses s)) ≡ true) (sym (same (anomaly_key h a)))
                (each a j))) in
          rw (filled, some_there) all,
    )
