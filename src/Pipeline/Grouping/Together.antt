-- ===== src/Pipeline/Grouping/Together.antt =====
-- Lemmas on the groups of `group_anomalies` and the relation `Connected`.
use mathlib.Core.List.{append_assoc, append-nil}
use aiops_apm_anomaly_detect.Prelude.{
  zero, ℕ, suc, ◌+◌, ◌<◌, ◌≡◌, refl, sym, ap, subst, ◌∙◌, ◌⊎◌, inl, inr, ◌↔◌, Bool, some, List, [],
  ◌∷◌, ◌++◌, arith, ◌==◌, ==_iff, length, Bool-cases, Option-cases, or_else, In, In-append_left,
  In-append_right, In-append_cases, In-map, map-In,
}
use aiops_apm_anomaly_detect.Prelude.Dict.{get, put, nat_key, get-put}
use aiops_apm_anomaly_detect.Prelude.Sort.{sort_by, insert_by}
use aiops_apm_anomaly_detect.Errors.{ok}
use aiops_apm_anomaly_detect.Models.Anomaly.{Anomaly}
use aiops_apm_anomaly_detect.Pipeline.Grouping.{
  Group, Components, enumerate, collect, ordered_groups, connect, group_anomalies,
}
use aiops_apm_anomaly_detect.Pipeline.Grouping.UnionFind.{find}
use aiops_apm_anomaly_detect.Pipeline.Grouping.UnionFind.Forest.{Represents, find-Represents}
use aiops_apm_anomaly_detect.Pipeline.Grouping.Connected.{Connected}
use aiops_apm_anomaly_detect.Pipeline.Grouping.Connect.{connect_lem}
use aiops_apm_anomaly_detect.Pipeline.Grouping.Partition.{groups_of, group_anomalies-groups_of}

abbrev Members : Type 0
Members = List (ℕ × Group)

get-In : (d : Members) (k : ℕ) (g : Group) → get d k ≡ some g → In (k, g) d
unfolding get
get-In [] k g h = absurd (ground arith)
get-In ((j, w) ∷ d) k g h = elim (Bool-cases (j == k)) [
  | inl e ↦
      let same : j ≡ k = (==_iff j k).0 e in
      let found : some w ≡ some g = rw e at h in let here : w ≡ g = cc in inl (rw (same, here) refl)
  | inr e ↦ inr (get-In d k g (rw e at h))
]

put-In :
    (d : Members) (k : ℕ) (v : Group) (e : ℕ × Group) → In e (put d k v) → (e ≡ (k, v)) ⊎ In e d
unfolding put
put-In [] k v e i = elim i [ inl h ↦ inl h | inr h ↦ elim h [ ] ]
put-In ((j, w) ∷ d) k v e i = elim (Bool-cases (j == k)) [
  | inl t ↦
      let i' : In e ((j, v) ∷ d) = rw t at i in
      elim i' [ inl h ↦ inl (h ∙ ap (λ (u : ℕ). (u, v)) ((==_iff j k).0 t)) | inr h ↦ inr (inr h) ]
  | inr t ↦
      let i' : In e ((j, w) ∷ put d k v) = rw t at i in
      elim i' [
        | inl h ↦ inr (inl h)
        | inr h ↦ elim (put-In d k v e h) [ inl p ↦ inl p | inr p ↦ inr (inr p) ]
      ]
]

insert_by-In :
    (le : ℕ × Group → ℕ × Group → Bool) (x : ℕ × Group) (xs : Members) (e : ℕ × Group)
    → In e (insert_by le x xs) ↔ In e (x ∷ xs)
unfolding insert_by
insert_by-In le x [] e = (λ i. i, λ i. i)
insert_by-In le x (y ∷ ys) e = elim (Bool-cases (le x y)) [
  | inl t ↦ rw t (λ i. i, λ i. i)
  | inr t ↦
      let ih = insert_by-In le x ys e in
      rw t (
        λ i. elim i [
          | inl h ↦ inr (inl h)
          | inr h ↦ elim (ih.0 h) [ inl p ↦ inl p | inr p ↦ inr (inr p) ]
        ],
        λ i. elim i [
          | inl h ↦ inr (ih.1 (inl h))
          | inr (inl h) ↦ inl h
          | inr (inr h) ↦ inr (ih.1 (inr h))
        ],
      )
]

sort_by-In :
    (le : ℕ × Group → ℕ × Group → Bool) (xs : Members) (e : ℕ × Group)
    → In e (sort_by le xs) ↔ In e xs
unfolding sort_by
sort_by-In le [] e = (λ i. i, λ i. i)
sort_by-In le (x ∷ xs) e =
    let step = insert_by-In le x (sort_by le xs) e in
    let ih = sort_by-In le xs e in
    (
      λ i. elim (step.0 i) [ inl h ↦ inl h | inr h ↦ inr (ih.0 h) ],
      λ i. step.1 (elim i [ inl h ↦ inl h | inr h ↦ inr (ih.1 h) ]),
    )

module _ (rep : ℕ → ℕ) where
  -- What stands under a root has that representative.
  record Rooted (d : Members) : Type 0 where
    of_root : (r : ℕ) (g : Group) (m : ℕ × Anomaly) → In (r, g) d → In m g → rep m.0 ≡ r

  -- The member stands under its representative.
  record Stands (d : Members) (m : ℕ × Anomaly) : Type 0 where
    group : Group
    found : get d (rep m.0) ≡ some group
    member : In m group

  abbrev extended : Members → ℕ × Anomaly → Members
  extended d m = put d (rep m.0) (or_else (get d (rep m.0)) [] ++ m ∷ [])

  extended-Rooted : (d : Members) (m : ℕ × Anomaly) → Rooted d → Rooted (extended d m)
  extended-Rooted d m h = record {
    of_root = λ r g k i j. elim (put-In d (rep m.0) _ (r, g) i) [
      | inr old ↦ h.of_root r g k old j
      | inl new ↦
          let root : r ≡ rep m.0 = ap (λ e. e.0) new in
          let j' : In k (or_else (get d (rep m.0)) [] ++ m ∷ []) =
            subst (In k) (ap (λ e. e.1) new) j in
          elim (In-append_cases k (or_else (get d (rep m.0)) []) (m ∷ []) j') [
            | inr (inl e) ↦ ap (λ (u : ℕ × Anomaly). rep u.0) e ∙ sym root
            | inr (inr e) ↦ elim e [ ]
            | inl before ↦ elim (Option-cases (get d (rep m.0))) [
              | inl absent ↦ let b : In k [] = rw absent at before in elim b [ ]
              | inr (g', present) ↦
                  h.of_root (rep m.0) g' k (get-In d (rep m.0) g' present) (rw present at before)
                  ∙ sym root
            ]
          ]
    ];
  }

  extended-new : (d : Members) (m : ℕ × Anomaly) → Stands (extended d m) m
  extended-new d m = record {
    group = or_else (get d (rep m.0)) [] ++ m ∷ [];
    found = get-put d (rep m.0) (rep m.0) _ ∙ (rw ((==_iff (rep m.0) (rep m.0)).1 refl) refl);
    member = In-append_right m (or_else (get d (rep m.0)) []) (m ∷ []) (inl refl);
  }

  extended-old : (d : Members) (m k : ℕ × Anomaly) → Stands d k → Stands (extended d m) k
  extended-old d m k s = elim (Bool-cases (rep m.0 == rep k.0)) [
    | inl e ↦
        let same = (==_iff (rep m.0) (rep k.0)).0 e in
        record {
          group = or_else (get d (rep m.0)) [] ++ m ∷ [];
          found = get-put d (rep m.0) (rep k.0) _ ∙ (rw e refl);
          member = rw (same, s.found) (In-append_left k s.group (m ∷ []) s.member);
        }
    | inr e ↦ record {
      group = s.group;
      found = get-put d (rep m.0) (rep k.0) _ ∙ (rw e s.found);
      member = s.member;
    }
  ]

  record Collected (done : Group) (d : Members) : Type 0 where
    rooted : Rooted d
    stands : (m : ℕ × Anomaly) → In m done → Stands d m

  collect-Collected :
      (n : ℕ) (rest : Group) (uf : List ℕ) (c : Components) (done : Group)
      → Represents n uf rep
      → ((m : ℕ × Anomaly) → In m rest → m.0 < n)
      → Collected done c.0
      → Collected (done ++ rest) (collect rest uf c).0
  unfolding collect
  collect-Collected n [] uf c done r h s = rw (append-nil done) s
  collect-Collected n ((idx, a) ∷ rest) uf (members, first_index) done r h s =
      let (root, r') = find-Represents idx r (h (idx, a) (inl refl)) in
      let m : ℕ × Anomaly = (idx, a) in
      let next : Collected (done ++ m ∷ []) (extended members m) = record {
        rooted = extended-Rooted members m s.rooted;
        stands = λ k i. elim (In-append_cases k done (m ∷ []) i) [
          | inl old ↦ extended-old members m k (s.stands k old)
          | inr (inl e) ↦ rw e (extended-new members m)
          | inr (inr e) ↦ elim e [ ]
        ];
      } in
      subst (λ v. Collected v (collect ((idx, a) ∷ rest) uf (members, first_index)).0)
        (append_assoc done (m ∷ []) rest)
        (rw (root, collect)
          (collect-Collected n rest (find uf idx).1
            (
              extended members m,
              put first_index (rep idx) (or_else (get first_index (rep idx)) idx),
            )
            (done ++ m ∷ []) r' (λ k i. h k (inr i)) next))

enumerate-lt :
    (i : ℕ) (xs : List Anomaly) (m : ℕ × Anomaly) → In m (enumerate i xs) → m.0 < i + length xs
unfolding enumerate
enumerate-lt i [] m h = elim h [ ]
enumerate-lt i (a ∷ xs) m (inl e) =
    let first : m.0 ≡ i = ap (λ (u : ℕ × Anomaly). u.0) e in omega arith
enumerate-lt i (a ∷ xs) m (inr h) = omega (arith, enumerate-lt (suc i) xs m h)

enumerate-In :
    (i : ℕ) (xs : List Anomaly) (k : ℕ)
    → k < length xs
    → (a : Anomaly) × In (i + k, a) (enumerate i xs)
unfolding enumerate
enumerate-In i [] k h = absurd (omega arith)
enumerate-In i (a ∷ xs) zero h = let z : i + 0 ≡ i = omega arith in (a, inl (rw z refl))
enumerate-In i (a ∷ xs) (suc k) h =
    let (b, found) = enumerate-In (suc i) xs k (omega arith) in
    let step : suc i + k ≡ i + suc k = omega arith in
    (b, inr (subst (λ u. In (u, b) (enumerate (suc i) xs)) step found))

-- The two positions are in one of the groups.
abbrev pub SameGroup : List Group → ℕ → ℕ → Type 0
SameGroup gs i j =
    (g : Group) × In g gs × ((a : Anomaly) × In (i, a) g) × ((b : Anomaly) × In (j, b) g)

module _ (xs : List Anomaly) where
  abbrev final : Members
  final = (collect (enumerate 0 xs) (connect xs) ([], [])).0

  final-Collected : Collected (connect_lem xs).0.rep (enumerate 0 xs) final
  unfolding get
  final-Collected =
      collect-Collected (connect_lem xs).0.rep (length xs) (enumerate 0 xs) (connect xs) ([], []) []
        (connect_lem xs).0.represents (λ m i. omega (arith, enumerate-lt 0 xs m i))
        (record { rooted = record { of_root = λ r g m i. elim i [ ] }; stands = λ m i. elim i [ ] })

  enumerated : (i : ℕ) → i < length xs → (a : Anomaly) × In (i, a) (enumerate 0 xs)
  enumerated i h =
      let (a, found) = enumerate-In 0 xs i h in
      let same : 0 + i ≡ i = omega arith in (a, subst (λ u. In (u, a) (enumerate 0 xs)) same found)

  groups_of-In : (g : Group) → In g (groups_of xs) ↔ ((r : ℕ) × In (r, g) final)
  unfolding ordered_groups
  groups_of-In g = (
    λ i.
        let (e, j, same) = map-In (λ (e : ℕ × Group). e.1) _ g i in
        (e.0, subst (λ u. In (e.0, u) final) (sym same) ((sort_by-In _ final e).0 j)),
    λ (r, i). In-map (λ (e : ℕ × Group). e.1) _ (r, g) ((sort_by-In _ final (r, g)).1 i),
  )

  SameGroup-Connected :
      (i j : ℕ) → i < length xs → j < length xs → SameGroup (groups_of xs) i j ↔ Connected xs i j
  SameGroup-Connected i j hi hj = (
    λ (g, here, (a, ia), (b, jb)).
        let (s, full) = connect_lem xs in
        let (r, placed) = (groups_of-In g).0 here in
        s.sound i j hi hj (
          final-Collected.rooted.of_root r g (i, a) placed ia
          ∙ sym (final-Collected.rooted.of_root r g (j, b) placed jb)),
    λ related.
        let (s, full) = connect_lem xs in
        let (a, ia) = enumerated i hi in
        let (b, jb) = enumerated j hj in
        let si = final-Collected.stands (i, a) ia in
        let sj = final-Collected.stands (j, b) jb in
        let shared : some si.group ≡ some sj.group =
          sym si.found ∙ ap (get final) (full i j related) ∙ sj.found in
        let same : si.group ≡ sj.group = cc in
        (
          si.group,
          (groups_of-In si.group).1 (s.rep i, get-In final (s.rep i) si.group si.found),
          (a, si.member),
          (b, subst (In (j, b)) (sym same) sj.member),
        ),
  )

-- Two anomalies of the input are in one group exactly when `Connected` relates their positions.
pub group_anomalies-Connected :
    (xs : List Anomaly) (gs : List Group) (i j : ℕ)
    → group_anomalies xs ≡ ok gs
    → i < length xs
    → j < length xs
    → SameGroup gs i j ↔ Connected xs i j
group_anomalies-Connected xs gs i j h hi hj =
    let r = group_anomalies-groups_of xs in
    let both : ok (groups_of xs) ≡ ok gs = sym r ∙ h in
    let same : groups_of xs ≡ gs = cc in
    subst (λ u. SameGroup u i j ↔ Connected xs i j) same (SameGroup-Connected xs i j hi hj)
