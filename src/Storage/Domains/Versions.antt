-- ===== src/Storage/Domains/Versions.antt =====
-- Lemmas on the versions of a rule in src/aiops_apm/storage/domain_config.py, and on the cache of
-- the loader of src/aiops_apm/config/loader.py.
use aiops_apm_anomaly_detect.Prelude.{
  ℕ, ◌+◌, ◌≡◌, refl, sym, ap, Option-cases, ◌∙◌, inl, inr, String, true, ◌&&◌, Option, none, some,
  List, [], ◌∷◌, ◌++◌, arith, some_of, some_of-append, Bool-cases, if◌then◌else◌, str_eq,
  str_eq_iff, str_eq_refl,
}
use aiops_apm_anomaly_detect.Errors.{Error, ok}
use aiops_apm_anomaly_detect.Models.Value.{Params}
use aiops_apm_anomaly_detect.Storage.Domains.{
  DomainRow, SeedItem, Loader, is_row, first_version, next_version, seeded, load, upsert_rows,
  upsert, seed_rows, seed, loader_load,
}

-- The first row of a tenant's domain.
pub row_of : List DomainRow → String → String → Option DomainRow
row_of [] tenant_id domain = none
row_of (r ∷ rows) tenant_id domain =
    if is_row tenant_id domain r then some r else row_of rows tenant_id domain

abbrev pub version_of : Option DomainRow → ℕ
version_of none = 0
version_of (some r) = r.version

module _ (tenant_id domain : String) (config : Params) where
  abbrev pub written : Option DomainRow → DomainRow
  written none = first_version tenant_id domain config
  written (some r) = next_version config r

  row_of-upsert_rows :
      (rows : List DomainRow) (t d : String)
      → row_of (upsert_rows rows tenant_id domain config).1 t d ≡ (
          if str_eq tenant_id t && str_eq domain d
          then some (written (row_of rows tenant_id domain))
          else row_of rows t d)
  unfolding row_of upsert_rows
  row_of-upsert_rows [] t d = refl
  row_of-upsert_rows (r ∷ rows) t d = ground (
    arith,
    row_of-upsert_rows rows t d,
    str_eq_iff r.tenant_id tenant_id,
    str_eq_iff r.tenant_id t,
    str_eq_iff tenant_id t,
    str_eq_iff r.domain domain,
    str_eq_iff r.domain d,
    str_eq_iff domain d,
  )

  version-upsert_rows :
      (rows : List DomainRow)
      → (upsert_rows rows tenant_id domain config).0 ≡ version_of (row_of rows tenant_id domain) + 1
  unfolding row_of upsert_rows
  version-upsert_rows [] = refl
  version-upsert_rows (r ∷ rows) = ground (arith, version-upsert_rows rows)

row_of-append :
    (rows : List DomainRow) (r : DomainRow) (t d : String)
    → row_of (rows ++ r ∷ []) t d
      ≡ (if some_of (is_row t d) rows then row_of rows t d else row_of (r ∷ []) t d)
unfolding row_of
row_of-append [] r t d = refl
row_of-append (s ∷ rows) r t d = ground (arith, row_of-append rows r t d)

some_of-row_of :
    (rows : List DomainRow) (t d : String) (r : DomainRow)
    → row_of rows t d ≡ some r
    → some_of (is_row t d) rows ≡ true
unfolding row_of
some_of-row_of [] t d r e = absurd (ground arith)
some_of-row_of (s ∷ rows) t d r e = ground (arith, some_of-row_of rows t d r)

-- A seed keeps the row of every domain that has one.
row_of-seed_rows :
    (rows : List DomainRow) (tenant_id : String) (items : List SeedItem) (t d : String)
    → some_of (is_row t d) rows ≡ true
    → row_of (seed_rows rows tenant_id items) t d ≡ row_of rows t d
unfolding seed_rows
row_of-seed_rows rows tenant_id [] t d h = refl
row_of-seed_rows rows tenant_id (item ∷ items) t d h =
    elim (Bool-cases (some_of (is_row tenant_id item.id) rows)) [
      | inl there ↦ rw there (row_of-seed_rows rows tenant_id items t d h)
      | inr missing ↦
          let more = rows ++ seeded tenant_id item ∷ [] in
          let still : some_of (is_row t d) more ≡ true =
            ground (arith, some_of-append (is_row t d) rows (seeded tenant_id item ∷ [])) in
          rw missing (
            row_of-seed_rows more tenant_id items t d still
            ∙ ((row_of-append rows (seeded tenant_id item) t d) ∙ (rw h refl)))
    ]

-- The row that a rule has after an upsert, its fields written out.
abbrev pub rule_row : String → String → Params → ℕ → DomainRow
rule_row tenant_id domain config version = record {
  tenant_id = tenant_id;
  domain = domain;
  config = config;
  enabled = true;
  version = version;
}

row_of-key :
    (rows : List DomainRow) (t d : String) (r : DomainRow)
    → row_of rows t d ≡ some r
    → (r.tenant_id ≡ t) × (r.domain ≡ d)
unfolding row_of
row_of-key [] t d r e = absurd (ground arith)
row_of-key (s ∷ rows) t d r e = elim (Bool-cases (is_row t d s)) [
  | inr other ↦ row_of-key rows t d r (rw other at e)
  | inl here ↦
      let same : s ≡ r = ground arith in
      rw (← same)
        ((str_eq_iff s.tenant_id t).0 (ground arith), (str_eq_iff s.domain d).0 (ground arith))
]

written-rule_row :
    (rows : List DomainRow) (tenant_id domain : String) (config : Params)
    → written tenant_id domain config (row_of rows tenant_id domain)
      ≡ rule_row tenant_id domain config (version_of (row_of rows tenant_id domain) + 1)
written-rule_row rows tenant_id domain config = elim (Option-cases (row_of rows tenant_id domain)) [
  | inl missing ↦ rw missing refl
  | inr (r, found) ↦
      let (t, d) = row_of-key rows tenant_id domain r found in rw (found, ← t, ← d) refl
]

-- When an upsert of a rule returned, and any seed after it did, the version that it gave is one more
-- than the version of the rule before (none counts as 0), the seeded store has the rule enabled with
-- the new configuration at that version, and the upsert left every other rule as it was.
pub upsert-version :
    (rows : List DomainRow) (tenant_id domain : String) (config : Params) (version : ℕ)
    (after : List DomainRow) (seeder : String) (items : List SeedItem) (last : List DomainRow)
    → upsert rows tenant_id domain config ≡ ok (version, after)
    → seed after seeder items ≡ ok last
    → (version ≡ version_of (row_of rows tenant_id domain) + 1)
      × (row_of last tenant_id domain ≡ some (rule_row tenant_id domain config version))
      × ((t d : String)
          → row_of after t d ≡ (
              if str_eq tenant_id t && str_eq domain d
              then some (rule_row tenant_id domain config version)
              else row_of rows t d))
unfolding upsert seed
upsert-version rows tenant_id domain config version after seeder items last e s =
    let new = upsert_rows rows tenant_id domain config in
    let counted : version ≡ version_of (row_of rows tenant_id domain) + 1 =
      ground (arith, version-upsert_rows tenant_id domain config rows) in
    let same_rows : after ≡ new.1 = ground arith in
    let same_last : last ≡ seed_rows after seeder items = ground arith in
    let new_row = rule_row tenant_id domain config version in
    let is_new : written tenant_id domain config (row_of rows tenant_id domain) ≡ new_row =
      written-rule_row rows tenant_id domain config
      ∙ ap (rule_row tenant_id domain config) (sym counted) in
    let at_key : (t d : String)
        → row_of after t d
          ≡ (if str_eq tenant_id t && str_eq domain d then some new_row else row_of rows t d) =
      λ t d. rw (same_rows, ← is_new) (row_of-upsert_rows tenant_id domain config rows t d) in
    let found : row_of after tenant_id domain ≡ some new_row =
      at_key tenant_id domain ∙ (rw (str_eq_refl tenant_id, str_eq_refl domain) refl) in
    (
      counted,
      rw same_last (
          row_of-seed_rows after seeder items tenant_id domain
            (some_of-row_of after tenant_id domain new_row found)
          ∙ found),
      at_key,
    )

-- When a loader gave rows to a tenant, then while the database fails it gives the same rows, to
-- whichever tenant asks, and keeps them.
pub loader_load-fallback :
    (l : Loader) (items : List SeedItem) (tenant_id other : String) (failure : Error)
    (found : List DomainRow) (after : Loader)
    → loader_load l items tenant_id none ≡ (ok found, after)
    → loader_load after items other (some failure) ≡ (ok found, after)
unfolding loader_load load seed
loader_load-fallback l items tenant_id other failure found after e =
    let remembered : after.cache ≡ some found = ground arith in rw remembered refl
