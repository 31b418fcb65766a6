-- ===== src/Pipeline/Grouping/Linking.antt =====
-- One union, and one step of a pass over keyed items, as steps of the class map.
use mathlib.Core.Path.{subst₂}
use aiops_apm_anomaly_detect.Prelude.{
  str_eq, ℕ, ◌<◌, ◌≡◌, refl, sym, ap, subst, ◌∙◌, ◌⊎◌, String, Option, none, some, List, [], inl,
  inr, arith, ◌==◌, ==_iff, Bool-cases, str_eq_iff,
}
use aiops_apm_anomaly_detect.Prelude.Dict.{get, put, get-put, string_key}
use aiops_apm_anomaly_detect.Pipeline.Grouping.{Linking, link_found, link}
use aiops_apm_anomaly_detect.Pipeline.Grouping.UnionFind.{singletons, find, union}
use aiops_apm_anomaly_detect.Pipeline.Grouping.UnionFind.Forest.{
  Represents, merge, find-Represents, union-Represents, singletons-Represents,
}

pub record Equivalence (R : ℕ → ℕ → Type 0) (n : ℕ) : Type 0 where
  pub refl_at : (i : ℕ) → i < n → R i i
  pub symm : (i j : ℕ) → R i j → R j i
  pub trans : (i j k : ℕ) → R i j → R j k → R i k

-- The union-find stands for `rep`, and no two items of a class are unrelated.
pub record State (n : ℕ) (R : ℕ → ℕ → Type 0) (p : List ℕ) : Type 0 where
  pub rep : ℕ → ℕ
  pub represents : Represents n p rep
  pub sound : (i j : ℕ) → i < n → j < n → rep i ≡ rep j → R i j

-- Classes only grow.
abbrev pub Grows : (rep rep' : ℕ → ℕ) → Type 0
Grows rep rep' = (i j : ℕ) → rep i ≡ rep j → rep' i ≡ rep' j

pub Grows-merge : (rep : ℕ → ℕ) (a b : ℕ) → Grows rep (merge rep a b)
Grows-merge rep a b i j e = ground arith

merge_joins : (rep : ℕ → ℕ) (a b : ℕ) → merge rep a b a ≡ merge rep a b b
merge_joins rep a b = ground arith

module _ {n : ℕ} {R : ℕ → ℕ → Type 0} (q : Equivalence R n) {p : List ℕ} (s : State n R p) where
  module _ (a b : ℕ) (ha : a < n) (hb : b < n) (r : R a b) where
    -- What the class of an item is after the union, with the relation that explains it.
    merge_related :
        (i : ℕ)
        → i < n
        → R i i × (merge s.rep a b i ≡ s.rep i) ⊎ R i a × (merge s.rep a b i ≡ s.rep a)
    merge_related i hi = elim (Bool-cases (s.rep i == s.rep b)) [
      | inl e ↦ inr (q.trans i b a (s.sound i b hi hb ((==_iff _ _).0 e)) (q.symm a b r), rw e)
      | inr e ↦ inl (q.refl_at i hi, rw e)
    ]

    merge_sound : (i j : ℕ) → i < n → j < n → merge s.rep a b i ≡ merge s.rep a b j → R i j
    merge_sound i j hi hj e = elim (merge_related i hi) [
      | inl (_, ei) ↦ elim (merge_related j hj) [
        | inl (_, ej) ↦ s.sound i j hi hj (sym ei ∙ e ∙ ej)
        | inr (rj, ej) ↦ q.trans i a j (s.sound i a hi ha (sym ei ∙ e ∙ ej)) (q.symm j a rj)
      ]
      | inr (ri, ei) ↦ elim (merge_related j hj) [
        | inl (_, ej) ↦ q.trans i a j ri (s.sound a j ha hj (sym ei ∙ e ∙ ej))
        | inr (rj, ej) ↦ q.trans i a j ri (q.symm j a rj)
      ]
    ]

    -- A union of two related items keeps the state.
    union-State : State n R (union p a b)
    union-State = record {
      rep = merge s.rep a b;
      represents = union-Represents a b s.represents ha hb;
      sound = merge_sound;
    }

  find-State : (x : ℕ) → x < n → State n R (find p x).1
  find-State x h = record {
    rep = s.rep;
    represents = (find-Represents x s.represents h).1;
    sound = s.sound;
  }

-- A union of two related items joins them and parts nobody.
pub union_joins :
    {n : ℕ} {R : ℕ → ℕ → Type 0} {p : List ℕ} (q : Equivalence R n) (s : State n R p) (a b : ℕ)
    → a < n
    → b < n
    → R a b
    → (s' : State n R (union p a b)) × Grows s.rep s'.rep × (s'.rep a ≡ s'.rep b)
unfolding union-State
union_joins q s a b ha hb r =
    (union-State q s a b ha hb r, Grows-merge s.rep a b, merge_joins s.rep a b)

-- `find` answers with the class and changes none.
pub find_keeps :
    {n : ℕ} {R : ℕ → ℕ → Type 0} {p : List ℕ} (q : Equivalence R n) (s : State n R p) (x : ℕ)
    → x < n
    → (s' : State n R (find p x).1) × (s'.rep ≡ s.rep) × ((find p x).0 ≡ s.rep x)
unfolding find-State
find_keeps q s x h = (find-State q s x h, refl, (find-Represents x s.represents h).0)

-- The dictionary of a pass holds items that have their key.
pub record Known (K : String → ℕ → Type 0) (n : ℕ) (d : List (String × ℕ)) : Type 0 where
  pub at : (k : String) (f : ℕ) → get d k ≡ some f → (f < n) × K k f

-- The item is in one class with the first that had the key.
pub record Recorded (rep : ℕ → ℕ) (d : List (String × ℕ)) (k : String) (i : ℕ) : Type 0 where
  pub first : ℕ
  pub found : get d k ≡ some first
  pub same : rep first ≡ rep i

-- What holds after some steps of a pass from the classes `rep` and the dictionary `d`.
pub record Passed (n : ℕ) (R : ℕ → ℕ → Type 0) (K : String → ℕ → Type 0) (rep : ℕ → ℕ)
    (d : List (String × ℕ)) (l : Linking) : Type 0 where
  pub state : State n R l.0
  pub known : Known K n l.1
  pub grows : Grows rep state.rep
  pub keeps : (k : String) (i : ℕ) → Recorded rep d k i → Recorded state.rep l.1 k i

pub Recorded-Grows :
    {rep rep' : ℕ → ℕ} {d : List (String × ℕ)} (k : String) (i : ℕ)
    → Grows rep rep'
    → Recorded rep d k i
    → Recorded rep' d k i
Recorded-Grows k i g r = record { first = r.first; found = r.found; same = g r.first i r.same }

module _ (K : String → ℕ → Type 0) {n : ℕ} {d : List (String × ℕ)} (known : Known K n d)
    (key : String) (idx : ℕ) (absent : get d key ≡ none) where
  get-put_absent : (k : String) (f : ℕ) → get d k ≡ some f → get (put d key idx) k ≡ some f
  get-put_absent k f e = ground (arith, get-put d key k idx, str_eq_iff key k)

  Known-put : idx < n → K key idx → Known K n (put d key idx)
  Known-put h k_idx = record { at = entry }
    where
      entry : (k : String) (f : ℕ) → get (put d key idx) k ≡ some f → (f < n) × K k f
      entry k f e = elim (Bool-cases (str_eq key k)) [
        | inl s ↦
            let e' : some idx ≡ some f = rw (get-put d key k idx, s) at e in
            let i : idx ≡ f = cc in (rw (← i) h, subst₂ K ((str_eq_iff key k).0 s) i k_idx)
        | inr s ↦ known.at k f (rw (get-put d key k idx, s) at e)
      ]

  Recorded-put :
      (rep : ℕ → ℕ) (k : String) (i : ℕ) → Recorded rep d k i → Recorded rep (put d key idx) k i
  Recorded-put rep k i r = record {
    first = r.first;
    found = get-put_absent k r.first r.found;
    same = r.same;
  }

  Recorded-put_self : (rep : ℕ → ℕ) → Recorded rep (put d key idx) key idx
  Recorded-put_self rep = record {
    first = idx;
    found = ground (arith, get-put d key key idx, str_eq_iff key key);
    same = refl;
  }

-- One step of a pass whose items are related when they have a common key.
module _ (n : ℕ) (R : ℕ → ℕ → Type 0) (q : Equivalence R n) (K : String → ℕ → Type 0)
    (keyed : (k : String) (i j : ℕ) → K k i → K k j → R i j) where
  pub link_found-Passed :
      {p : List ℕ} {d : List (String × ℕ)} (o : Option ℕ) (key : String) (idx : ℕ) (s : State n R p)
      → Known K n d
      → get d key ≡ o
      → idx < n
      → K key idx
      → (r : Passed n R K s.rep d (link_found o key idx p d)) × Recorded r.state.rep
          (link_found o key idx p d).1
          key
          idx
  unfolding link_found union-State
  link_found-Passed none key idx s known e h k = (
    record {
      state = s;
      known = Known-put K known key idx e h k;
      grows = λ i j same. same;
      keeps = Recorded-put K known key idx e s.rep;
    },
    Recorded-put_self K known key idx e s.rep,
  )
  link_found-Passed (some first) key idx s known e h k =
      let (hf, kf) = known.at key first e in
      let grows = Grows-merge s.rep first idx in
      (
        record {
          state = union-State q s first idx hf h (keyed key first idx kf k);
          known = known;
          grows = grows;
          keeps = λ j i. Recorded-Grows j i grows;
        },
        record { first = first; found = e; same = merge_joins s.rep first idx },
      )

  pub link-Passed :
      {l : Linking} (key : String) (idx : ℕ) (s : State n R l.0)
      → Known K n l.1
      → idx < n
      → K key idx
      → (r : Passed n R K s.rep l.1 (link key idx l)) × Recorded r.state.rep
          (link key idx l).1
          key
          idx
  unfolding link
  link-Passed {l} key idx s known h k = link_found-Passed (get l.1 key) key idx s known refl h k

-- Two items recorded under one key are in one class.
pub Recorded-same :
    (rep : ℕ → ℕ) (d : List (String × ℕ)) (k k' : String) (i j : ℕ)
    → Recorded rep d k i
    → Recorded rep d k' j
    → k ≡ k'
    → rep i ≡ rep j
Recorded-same rep d k k' i j r t e =
    let firsts : some r.first ≡ some t.first = sym r.found ∙ ap (get d) e ∙ t.found in
    let same : r.first ≡ t.first = cc in sym r.same ∙ ap rep same ∙ t.same

pub Known-empty : (K : String → ℕ → Type 0) (n : ℕ) → Known K n []
unfolding get
Known-empty K n = record { at = λ k f e. absurd (ground arith) }

unfoldable pub initial : (n : ℕ) (R : ℕ → ℕ → Type 0) → Equivalence R n → State n R (singletons n)
initial n R q = record {
  rep = λ i. i;
  represents = singletons-Represents n;
  sound = λ i j h k e. subst (R i) e (q.refl_at i h);
}

module _ {n : ℕ} {R : ℕ → ℕ → Type 0} {p : List ℕ} (s : State n R p) (i : ℕ) (h : i < n) where
  pub rep_lt : s.rep i < n
  rep_lt = s.represents.forest.rep_range i h

  -- A representative represents itself.
  pub rep-rep : s.rep (s.rep i) ≡ s.rep i
  rep-rep =
      s.represents.forest.rep_root (s.rep i) (s.represents.forest.rep_range i h)
        (s.represents.forest.rep_fixed i h)
