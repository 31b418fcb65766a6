-- ===== src/Pipeline/Grouping/Classes.antt =====
-- Lemmas on the classes of the union-find after the passes of src/aiops_apm/pipeline/grouping.py.
use aiops_apm_anomaly_detect.Prelude.{
  ℕ, ◌<◌, ◌≡◌, refl, sym, ◌∙◌, Option, none, some, List, get_elem?, length,
}
use aiops_apm_anomaly_detect.Models.Anomaly.{Anomaly, MetricAnomaly, LogAnomaly}
use aiops_apm_anomaly_detect.Pipeline.Grouping.Connected.{LogAt, MetricAt, Joined, Connected}
use aiops_apm_anomaly_detect.Pipeline.Grouping.Linking.{Equivalence}
use aiops_apm_anomaly_detect.Pipeline.Grouping.Placed.{get_elem?-ne_none}

-- Before metrics and logs meet: logs are related when joined, metrics when of one service.
abbrev ApartAt : List Anomaly → (o p : Option Anomaly) → ℕ → ℕ → Type 0
ApartAt xs (some (Anomaly.log a)) (some (Anomaly.log b)) i j = Joined xs i j
ApartAt xs (some (Anomaly.metric m)) (some (Anomaly.metric n)) i j = m.service ≡ n.service
ApartAt xs none none i j = Unit
ApartAt xs _ _ i j = ⊥

abbrev pub Apart : List Anomaly → ℕ → ℕ → Type 0
Apart xs i j = ApartAt xs (get_elem? xs i) (get_elem? xs j) i j

module _ (xs : List Anomaly) where
  Joined-refl : (i : ℕ) (a : LogAnomaly) → LogAt xs i a → Joined xs i i
  Joined-refl i a h = Joined.same_signature a a h h refl

  ApartAt-refl : (o : Option Anomaly) (i : ℕ) → get_elem? xs i ≡ o → ApartAt xs o o i i
  ApartAt-refl (some (Anomaly.log a)) i e = Joined-refl i a e
  ApartAt-refl (some (Anomaly.metric m)) i e = refl
  ApartAt-refl none i e = tt

  ApartAt-symm : (o p : Option Anomaly) (i j : ℕ) → ApartAt xs o p i j → ApartAt xs p o j i
  ApartAt-symm (some (Anomaly.log a)) (some (Anomaly.log b)) i j r = Joined.symm r
  ApartAt-symm (some (Anomaly.metric m)) (some (Anomaly.metric n)) i j r = sym r
  ApartAt-symm none none i j r = tt
  ApartAt-symm (some (Anomaly.log a)) (some (Anomaly.metric m)) i j r = absurd r
  ApartAt-symm (some (Anomaly.metric m)) (some (Anomaly.log a)) i j r = absurd r
  ApartAt-symm none (some (Anomaly.log a)) i j r = absurd r
  ApartAt-symm none (some (Anomaly.metric m)) i j r = absurd r
  ApartAt-symm (some (Anomaly.log a)) none i j r = absurd r
  ApartAt-symm (some (Anomaly.metric m)) none i j r = absurd r

  ApartAt-trans :
      (o p r : Option Anomaly) (i j k : ℕ)
      → ApartAt xs o p i j
      → ApartAt xs p r j k
      → ApartAt xs o r i k
  ApartAt-trans (some (Anomaly.log a)) (some (Anomaly.log b)) (some (Anomaly.log c)) i j k x y =
      Joined.trans x y
  ApartAt-trans (some (Anomaly.metric a)) (some (Anomaly.metric b)) (some (Anomaly.metric c)) i j k
        x y =
      x ∙ y
  ApartAt-trans none none none i j k x y = tt
  ApartAt-trans none none (some (Anomaly.log c)) i j k x y = absurd y
  ApartAt-trans none none (some (Anomaly.metric c)) i j k x y = absurd y
  ApartAt-trans none (some (Anomaly.log b)) r i j k x y = absurd x
  ApartAt-trans none (some (Anomaly.metric b)) r i j k x y = absurd x
  ApartAt-trans (some (Anomaly.log a)) none r i j k x y = absurd x
  ApartAt-trans (some (Anomaly.metric a)) none r i j k x y = absurd x
  ApartAt-trans (some (Anomaly.log a)) (some (Anomaly.metric b)) r i j k x y = absurd x
  ApartAt-trans (some (Anomaly.metric a)) (some (Anomaly.log b)) r i j k x y = absurd x
  ApartAt-trans (some (Anomaly.log a)) (some (Anomaly.log b)) none i j k x y = absurd y
  ApartAt-trans (some (Anomaly.log a)) (some (Anomaly.log b)) (some (Anomaly.metric c)) i j k x y =
      absurd y
  ApartAt-trans (some (Anomaly.metric a)) (some (Anomaly.metric b)) none i j k x y = absurd y
  ApartAt-trans (some (Anomaly.metric a)) (some (Anomaly.metric b)) (some (Anomaly.log c)) i j k x
        y =
      absurd y

  pub Apart-Equivalence : Equivalence (Apart xs) (length xs)
  Apart-Equivalence = record {
    refl_at = λ i h. ApartAt-refl (get_elem? xs i) i refl;
    symm = λ i j r. ApartAt-symm (get_elem? xs i) (get_elem? xs j) i j r;
    trans = λ i j k x y. ApartAt-trans (get_elem? xs i) (get_elem? xs j) (get_elem? xs k) i j k x y;
  }

  pub Apart-logs :
      (i j : ℕ) (a b : LogAnomaly) → LogAt xs i a → LogAt xs j b → Apart xs i j ≡ Joined xs i j
  Apart-logs i j a b h k = rw (h, k)

  pub Apart-metrics :
      (i j : ℕ) (m n : MetricAnomaly)
      → MetricAt xs i m
      → MetricAt xs j n
      → Apart xs i j ≡ (m.service ≡ n.service)
  Apart-metrics i j m n h k = rw (h, k)

  Connected_of_ApartAt :
      (o p : Option Anomaly) (i j : ℕ)
      → get_elem? xs i ≡ o
      → get_elem? xs j ≡ p
      → i < length xs
      → ApartAt xs o p i j
      → Connected xs i j
  Connected_of_ApartAt (some (Anomaly.log a)) (some (Anomaly.log b)) i j e f h r =
      Connected.joined r
  Connected_of_ApartAt (some (Anomaly.metric m)) (some (Anomaly.metric n)) i j e f h r =
      Connected.same_service m n e f r
  Connected_of_ApartAt none none i j e f h r = absurd (get_elem?-ne_none xs i h e)
  Connected_of_ApartAt (some (Anomaly.log a)) (some (Anomaly.metric m)) i j e f h r = absurd r
  Connected_of_ApartAt (some (Anomaly.metric m)) (some (Anomaly.log a)) i j e f h r = absurd r
  Connected_of_ApartAt none (some (Anomaly.log a)) i j e f h r = absurd r
  Connected_of_ApartAt none (some (Anomaly.metric m)) i j e f h r = absurd r
  Connected_of_ApartAt (some (Anomaly.log a)) none i j e f h r = absurd r
  Connected_of_ApartAt (some (Anomaly.metric m)) none i j e f h r = absurd r

  pub Connected_of_Apart : (i j : ℕ) → i < length xs → Apart xs i j → Connected xs i j
  Connected_of_Apart i j h r =
      Connected_of_ApartAt (get_elem? xs i) (get_elem? xs j) i j refl refl h r

  Connected-refl : (i : ℕ) → i < length xs → Connected xs i i
  Connected-refl i h = Connected_of_Apart i i h (ApartAt-refl (get_elem? xs i) i refl)

  pub Connected-Equivalence : Equivalence (Connected xs) (length xs)
  Connected-Equivalence = record {
    refl_at = Connected-refl;
    symm = λ i j r. Connected.symm r;
    trans = λ i j k x y. Connected.trans x y;
  }
