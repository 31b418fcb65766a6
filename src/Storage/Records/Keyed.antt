-- ===== src/Storage/Records/Keyed.antt =====
-- Lemmas on the rows of src/aiops_apm/storage/records.py under their own record ids.
use aiops_apm_anomaly_detect.Prelude.{
  ◌≡◌, refl, ap, subst, ◌∙◌, inl, inr, String, true, false, ◌&&◌, some, [], ◌∷◌, arith, Bool-cases,
  All, str_eq, str_eq_iff, str_eq_refl,
}
use aiops_apm_anomaly_detect.Prelude.Dict as Dict
use aiops_apm_anomaly_detect.Prelude.Dict.{
  string_key, get-put, DistinctKeys, put-DistinctKeys, get-tail,
}
use aiops_apm_anomaly_detect.Storage.Records.{Row, Rows, holds_ticket, ticket_row}

-- The key of an entry is the record id of its row.
abbrev pub OwnId : String × Row → Type 0
OwnId e = e.0 ≡ e.1.base.record_id

abbrev pub Keyed : Rows → Type 0
Keyed rows = DistinctKeys rows × All OwnId rows

put-OwnId :
    (rows : Rows) (id : String) (row : Row)
    → id ≡ row.base.record_id
    → All OwnId rows
    → All OwnId (Dict.put rows id row)
unfolding Dict.put
put-OwnId [] id row e h = (e, tt)
put-OwnId ((i, r) ∷ rows) id row e h = elim (Bool-cases (str_eq i id)) [
  | inl same ↦ rw same (((str_eq_iff i id).0 same) ∙ e, h.1)
  | inr other ↦ rw other (h.0, put-OwnId rows id row e h.1)
]

pub put-Keyed :
    (rows : Rows) (id : String) (row : Row)
    → id ≡ row.base.record_id
    → Keyed rows
    → Keyed (Dict.put rows id row)
put-Keyed rows id row e h = (put-DistinctKeys rows id row h.0, put-OwnId rows id row e h.1)

pub put-put :
    (rows : Rows) (id : String) (first second : Row)
    → Dict.put (Dict.put rows id first) id second ≡ Dict.put rows id second
unfolding Dict.put
put-put [] id first second = rw (str_eq_refl id) refl
put-put ((i, r) ∷ rows) id first second = elim (Bool-cases (str_eq i id)) [
  | inl same ↦ rw (same, same) refl
  | inr other ↦ rw (other, other) (rw (put-put rows id first second) refl)
]

module _ (tenant_id ticket : String) where
  -- The row that a search by ticket finds stands under its id.
  pub ticket_row-some :
      (rows : Rows) (row : Row)
      → Keyed rows
      → ticket_row rows tenant_id ticket ≡ some row
      → (Dict.get rows row.base.record_id ≡ some row)
        × (str_eq row.base.tenant_id tenant_id ≡ true)
        × (holds_ticket row ticket ≡ true)
  unfolding ticket_row Dict.get
  ticket_row-some [] row k e = absurd (ground arith)
  ticket_row-some ((i, r) ∷ rows) row k e =
      elim (Bool-cases (str_eq r.base.tenant_id tenant_id && holds_ticket r ticket)) [
        | inl m ↦
            let here : some r ≡ some row = rw m at e in
            let same : r ≡ row = cc in
            let own : str_eq i row.base.record_id ≡ true =
              (str_eq_iff i row.base.record_id).1
                (k.1.0 ∙ ap (λ (u : Row). u.base.record_id) same) in
            let both : (str_eq row.base.tenant_id tenant_id && holds_ticket row ticket) ≡ true =
              subst
                (λ (u : Row). (str_eq u.base.tenant_id tenant_id && holds_ticket u ticket) ≡ true)
                same m in
            (rw own (ap some same), ground arith, ground arith)
        | inr m ↦
            let (found, mine, holds) = ticket_row-some rows row (k.0.1, k.1.1) (rw m at e) in
            (get-tail rows i row.base.record_id r row k.0.0 found, mine, holds)
      ]

  -- A row that is written back with its ticket is found again.
  pub ticket_row-put :
      (rows : Rows) (row new : Row)
      → Keyed rows
      → ticket_row rows tenant_id ticket ≡ some row
      → str_eq new.base.tenant_id tenant_id ≡ true
      → holds_ticket new ticket ≡ true
      → ticket_row (Dict.put rows row.base.record_id new) tenant_id ticket ≡ some new
  unfolding ticket_row Dict.put
  ticket_row-put [] row new k e mine holds = absurd (ground arith)
  ticket_row-put ((i, r) ∷ rows) row new k e mine holds =
      elim (Bool-cases (str_eq r.base.tenant_id tenant_id && holds_ticket r ticket)) [
        | inl m ↦
            let here : some r ≡ some row = rw m at e in
            let same : r ≡ row = cc in
            let own : str_eq i row.base.record_id ≡ true =
              (str_eq_iff i row.base.record_id).1
                (k.1.0 ∙ ap (λ (u : Row). u.base.record_id) same) in
            rw (own, mine, holds) refl
        | inr m ↦
            let later : ticket_row rows tenant_id ticket ≡ some row = rw m at e in
            let ih = ticket_row-put rows row new (k.0.1, k.1.1) later mine holds in
            let (found, owner, held) = ticket_row-some rows row (k.0.1, k.1.1) later in
            let other : str_eq i row.base.record_id ≡ false =
              ground (arith, str_eq_iff i row.base.record_id, k.0.0, found) in
            rw (other, m) ih
      ]
