-- ===== src/Pipeline/Grouping/UnionFind/Forest.antt =====
-- The parents of `_UnionFind` of src/aiops_apm/pipeline/grouping.py as a forest, and its fuel.
use mathlib.Core.Path.{fun_ext}
use aiops_apm_anomaly_detect.Prelude.{
  ap, ℕ, zero, suc, ◌+◌, ◌≤◌, ◌<◌, ◌≡◌, ◌≢◌, refl, sym, subst, ◌∙◌, false, List, [], ◌∷◌, inl, inr,
  arith, length, length-set, get_or, get_or-set_self, get_or-set_ne, set, ◌==◌, ==_iff, Bool-cases,
  if◌then◌else◌,
}
use aiops_apm_anomaly_detect.Pipeline.Grouping.UnionFind.{
  range, singletons, parent, climb, compress, find, union,
}

-- How many items from position `k` on are their own parents.
pub roots_from : ℕ → List ℕ → ℕ
roots_from k [] = 0
roots_from k (x ∷ xs) = (if x == k then 1 else 0) + roots_from (suc k) xs

roots_from-link :
    (k : ℕ) (p : List ℕ) (i j v : ℕ)
    → k + i ≡ j
    → i < length p
    → get_or p i j ≡ j
    → v ≢ j
    → roots_from k (set p i v) + 1 ≡ roots_from k p
unfolding roots_from
roots_from-link k [] i j v s h e ne = elim h [ ]
roots_from-link k (x ∷ xs) zero j v s h e ne = ground arith
roots_from-link k (x ∷ xs) (suc i) j v s h e ne =
    omega (arith, roots_from-link (suc k) xs i j v (omega arith) (omega arith) e ne)

roots_from-move :
    (k : ℕ) (p : List ℕ) (i j v : ℕ)
    → k + i ≡ j
    → i < length p
    → get_or p i j ≢ j
    → v ≢ j
    → roots_from k (set p i v) ≡ roots_from k p
unfolding roots_from
roots_from-move k [] i j v s h e ne = elim h [ ]
roots_from-move k (x ∷ xs) zero j v s h e ne = ground arith
roots_from-move k (x ∷ xs) (suc i) j v s h e ne =
    omega (arith, roots_from-move (suc k) xs i j v (omega arith) (omega arith) e ne)

parent-set_self : (p : List ℕ) (i v : ℕ) → i < length p → parent (set p i v) i ≡ v
parent-set_self p i v h = get_or-set_self p i v i h

parent-set_ne : (p : List ℕ) (i j v : ℕ) → i ≢ j → parent (set p i v) j ≡ parent p j
parent-set_ne p i j v h = get_or-set_ne p i j v j h

-- `rep` names the class of each item, and `depth` falls towards the root.
pub record Forest (n : ℕ) (p : List ℕ) (rep depth : ℕ → ℕ) : Type 0 where
  pub size : length p ≡ n
  pub in_range : (i : ℕ) → i < n → parent p i < n
  pub rep_range : (i : ℕ) → i < n → rep i < n
  pub rep_fixed : (i : ℕ) → i < n → parent p (rep i) ≡ rep i
  pub rep_root : (i : ℕ) → i < n → parent p i ≡ i → rep i ≡ i
  pub depth_root : (i : ℕ) → i < n → parent p i ≡ i → depth i ≡ 0
  pub depth_falls : (i : ℕ) → i < n → parent p i ≢ i → depth (parent p i) < depth i
  pub rep_parent : (i : ℕ) → i < n → rep (parent p i) ≡ rep i
  pub depth_le : (i : ℕ) → i < n → depth i + roots_from 0 p ≤ n

climb_lem :
    {n : ℕ} {p : List ℕ} {rep depth : ℕ → ℕ} (fuel x : ℕ)
    → Forest n p rep depth
    → x < n
    → depth x < fuel
    → climb fuel p x ≡ rep x
unfolding climb
climb_lem zero x f h d = elim d [ ]
climb_lem {p = p} (suc fuel) x f h d = elim (Bool-cases (parent p x == x)) [
  | inl e ↦ rw (e, climb) (sym (f.rep_root x h ((==_iff _ _).0 e)))
  | inr e ↦
      rw (e, climb)
        (climb_lem fuel (parent p x) f (f.in_range x h) (ground (arith, f.depth_falls x h))
          ∙ f.rep_parent x h)
]

-- The assignment in the second loop of `find`.
module _ {n : ℕ} {p : List ℕ} {rep depth : ℕ → ℕ} (f : Forest n p rep depth) (x : ℕ) (h : x < n)
    (below : parent p x ≢ x) where
  shortcut : List ℕ
  shortcut = set p x (rep x)

  x_ne_rep : (i : ℕ) → i < n → x ≢ rep i
  x_ne_rep i hi e = below (rw e (f.rep_fixed i hi))

  parent-shortcut : (i : ℕ) → parent shortcut i ≡ (if x == i then rep x else parent p i)
  unfolding shortcut
  parent-shortcut i = elim (Bool-cases (x == i)) [
    | inl e ↦ rw e (
        let e' : x ≡ i = (==_iff _ _).0 e in
        rw (← e') (parent-set_self p x (rep x) (omega (arith, f.size))))
    | inr e ↦ rw e (parent-set_ne p x i (rep x) (λ q. ground (arith, q)))
  ]

  depth_pos : 0 < depth x
  depth_pos = omega (arith, f.depth_falls x h below)

  length-shortcut : length shortcut ≡ n
  unfolding shortcut
  length-shortcut = length-set p x (rep x) ∙ f.size

  roots_from-shortcut : roots_from 0 shortcut ≡ roots_from 0 p
  unfolding shortcut
  roots_from-shortcut =
      roots_from-move 0 p x x (rep x) (omega arith) (omega (arith, f.size)) below
        (λ e. x_ne_rep x h (sym e))

  Forest-shortcut : Forest n shortcut rep depth
  Forest-shortcut = record {
    size = length-shortcut;
    in_range = λ i hi. ground (arith, parent-shortcut i, f.in_range i hi, f.rep_range x h);
    rep_range = f.rep_range;
    rep_fixed = λ i hi. ground (arith, parent-shortcut (rep i), x_ne_rep i hi, f.rep_fixed i hi);
    rep_root = λ i hi e. ground (arith, parent-shortcut i, f.rep_root i hi, x_ne_rep x h);
    depth_root = λ i hi e. ground (arith, parent-shortcut i, f.depth_root i hi, x_ne_rep x h);
    depth_falls = λ i hi e. ground (
      arith,
      parent-shortcut i,
      f.depth_falls i hi,
      depth_pos,
      f.depth_root (rep x) (f.rep_range x h) (f.rep_fixed x h),
    );
    rep_parent = λ i hi. ground (
      arith,
      parent-shortcut i,
      f.rep_parent i hi,
      f.rep_root (rep x) (f.rep_range x h) (f.rep_fixed x h),
    );
    depth_le = λ i hi. omega (arith, roots_from-shortcut, f.depth_le i hi);
  }

not_root :
    {n : ℕ} {p : List ℕ} {rep depth : ℕ → ℕ} (x : ℕ)
    → Forest n p rep depth
    → x < n
    → (parent p x == rep x) ≡ false
    → parent p x ≢ x
not_root x f h e q = ground (arith, f.rep_root x h q)

compress-Forest :
    {n : ℕ} {p : List ℕ} {rep depth : ℕ → ℕ} (fuel x : ℕ)
    → Forest n p rep depth
    → x < n
    → Forest n (compress fuel p (rep x) x) rep depth
unfolding compress shortcut
compress-Forest zero x f h = f
compress-Forest {n} {p} {rep} {depth} (suc fuel) x f h = elim (Bool-cases (parent p x == rep x)) [
  | inl e ↦ rw (e, compress) f
  | inr e ↦
      rw (e, compress)
        (subst (λ r. Forest n (compress fuel (set p x (rep x)) r (parent p x)) rep depth)
          (f.rep_parent x h)
          (compress-Forest fuel (parent p x) (Forest-shortcut f x h (not_root x f h e))
            (f.in_range x h)))
]

-- `find` returns the representative, and its path compression changes no class.
pub find_lem :
    {n : ℕ} {p : List ℕ} {rep depth : ℕ → ℕ} (x : ℕ)
    → Forest n p rep depth
    → x < n
    → ((find p x).0 ≡ rep x) × Forest n (find p x).1 rep depth
unfolding find
find_lem {n} {p} {rep} {depth} x f h = (
  climbed,
  subst (λ r. Forest n (compress (suc (length p)) p r x) rep depth) (sym climbed)
      (compress-Forest (suc (length p)) x f h),
)
  where
    climbed : climb (suc (length p)) p x ≡ rep x
    climbed = climb_lem (suc (length p)) x f h (omega (arith, f.depth_le x h, f.size))

-- The abstract operation: the class of `rb` joins that of `ra`.
abbrev pub relabel : (rep : ℕ → ℕ) (ra rb : ℕ) → ℕ → ℕ
relabel rep ra rb i = if rep i == rb then ra else rep i

abbrev deepen : (rep depth : ℕ → ℕ) (rb : ℕ) → ℕ → ℕ
deepen rep depth rb i = if rep i == rb then suc (depth i) else depth i

-- The assignment in `union`, between two different roots.
module _ {n : ℕ} {p : List ℕ} {rep depth : ℕ → ℕ} (f : Forest n p rep depth) (ra rb : ℕ)
    (ha : ra < n) (hb : rb < n) (root_a : parent p ra ≡ ra) (root_b : parent p rb ≡ rb)
    (ne : ra ≢ rb) where
  linked : List ℕ
  linked = set p rb ra

  parent-linked : (i : ℕ) → parent linked i ≡ (if rb == i then ra else parent p i)
  unfolding linked
  parent-linked i = elim (Bool-cases (rb == i)) [
    | inl e ↦ rw e (
        let e' : rb ≡ i = (==_iff _ _).0 e in
        rw (← e') (parent-set_self p rb ra (omega (arith, f.size))))
    | inr e ↦ rw e (parent-set_ne p rb i ra (λ q. ground (arith, q)))
  ]

  length-linked : length linked ≡ n
  unfolding linked
  length-linked = length-set p rb ra ∙ f.size

  roots_from-linked : roots_from 0 linked + 1 ≡ roots_from 0 p
  unfolding linked
  roots_from-linked = roots_from-link 0 p rb rb ra (omega arith) (omega (arith, f.size)) root_b ne

  Forest-linked : Forest n linked (relabel rep ra rb) (deepen rep depth rb)
  Forest-linked = record {
    size = length-linked;
    in_range = λ i hi. ground (arith, parent-linked i, f.in_range i hi);
    rep_range = λ i hi. ground (arith, f.rep_range i hi);
    rep_fixed = λ i hi. ground (arith, parent-linked (rep i), parent-linked ra, f.rep_fixed i hi);
    rep_root = λ i hi e. ground (arith, parent-linked i, f.rep_root i hi);
    depth_root = λ i hi e. ground (arith, parent-linked i, f.rep_root i hi, f.depth_root i hi);
    depth_falls = λ i hi e. ground (
      arith,
      parent-linked i,
      f.depth_falls i hi,
      f.rep_parent i hi,
      f.rep_root ra ha root_a,
      f.rep_root rb hb root_b,
      f.depth_root ra ha root_a,
    );
    rep_parent = λ i hi. ground (
      arith,
      parent-linked i,
      f.rep_parent i hi,
      f.rep_root ra ha root_a,
      f.rep_root rb hb root_b,
    );
    depth_le = λ i hi. ground (arith, roots_from-linked, f.depth_le i hi);
  }

-- What `union` does to the classes: that of `b` joins that of `a`.
abbrev pub merge : (rep : ℕ → ℕ) (a b : ℕ) → ℕ → ℕ
merge rep a b = relabel rep (rep a) (rep b)

-- The array stands for a map from items to representatives.
pub record Represents (n : ℕ) (p : List ℕ) (rep : ℕ → ℕ) : Type 0 where
  pub depth : ℕ → ℕ
  pub forest : Forest n p rep depth

pub find-Represents :
    {n : ℕ} {p : List ℕ} {rep : ℕ → ℕ} (x : ℕ)
    → Represents n p rep
    → x < n
    → ((find p x).0 ≡ rep x) × Represents n (find p x).1 rep
find-Represents x r h =
    let (found, after) = find_lem x r.forest h in
    (found, record { depth = r.depth; forest = after })

merge_same : (rep : ℕ → ℕ) (a b : ℕ) → rep a ≡ rep b → rep ≡ merge rep a b
merge_same rep a b e = fun_ext λ i. ground arith

-- When the array stands for the map `rep` from items to representatives, and both items are in
-- range, the array after `union` stands for `rep` with the class of the one put into the other's.
pub union-Represents :
    {n : ℕ} {p : List ℕ} {rep : ℕ → ℕ} (a b : ℕ)
    → Represents n p rep
    → a < n
    → b < n
    → Represents n (union p a b) (merge rep a b)
unfolding union linked
union-Represents {n} {p} {rep} a b r ha hb =
    let (found_a, after_a) = find_lem a r.forest ha in
    let (found_b, after_b) = find_lem b after_a hb in
    let p' = (find p a).1 in
    let p'' = (find p' b).1 in
    let f = r.forest in
    elim (Bool-cases (rep a == rep b)) [
      | inl e ↦
          rw (found_a, found_b, e)
            (record {
              depth = r.depth;
              forest =
                  subst (λ q. Forest n p'' q r.depth) (merge_same rep a b ((==_iff _ _).0 e))
                    after_b;
            })
      | inr e ↦
          rw (found_a, found_b, e)
            (record {
              depth = deepen rep r.depth (rep b);
              forest =
                  Forest-linked after_b (rep a) (rep b) (f.rep_range a ha) (f.rep_range b hb)
                    (after_b.rep_fixed a ha) (after_b.rep_fixed b hb) (λ q. ground (arith, q));
            })
    ]

get_or-range : (k n i : ℕ) (j : ℕ) → k + i ≡ j → i < n → get_or (range k n) i j ≡ j
unfolding range
get_or-range k zero i j e h = elim h [ ]
get_or-range k (suc n) zero j e h = omega arith
get_or-range k (suc n) (suc i) j e h = get_or-range (suc k) n i j (omega arith) (omega arith)

pub length-range : (k n : ℕ) → length (range k n) ≡ n
unfolding range
length-range k zero = refl
length-range k (suc n) = ap suc (length-range (suc k) n)

roots_from-le : (k : ℕ) (p : List ℕ) → roots_from k p ≤ length p
unfolding roots_from
roots_from-le k [] = omega arith
roots_from-le k (x ∷ xs) = ground (arith, roots_from-le (suc k) xs)

-- At first every item is alone.
pub singletons-Represents : (n : ℕ) → Represents n (singletons n) (λ i. i)
unfolding singletons
singletons-Represents n = record {
  depth = λ i. 0;
  forest = record {
    size = length-range 0 n;
    in_range = λ i h. omega (arith, self i h);
    rep_range = λ i h. h;
    rep_fixed = self;
    rep_root = λ i h e. refl;
    depth_root = λ i h e. refl;
    depth_falls = λ i h e. absurd (e (self i h));
    rep_parent = self;
    depth_le = λ i h. omega (arith, length-range 0 n, roots_from-le 0 (range 0 n));
  };
}
  where
    self : (i : ℕ) → i < n → parent (range 0 n) i ≡ i
    self i h = get_or-range 0 n i i (omega arith) h
