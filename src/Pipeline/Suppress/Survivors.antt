-- ===== src/Pipeline/Suppress/Survivors.antt =====
-- Lemmas on the signals that src/aiops_apm/pipeline/l0_suppress.py leaves.
use aiops_apm_anomaly_detect.Prelude.{
  ℕ, ◌≡◌, ◌≢◌, refl, sym, ap, subst, ◌∙◌, ◌↔◌, ◌⊎◌, inl, inr, String, Bool, true, false, not, ◌&&◌,
  Option, none, some, List, [], ◌∷◌, In, In-keep, keep-In, arith, Bool-cases, keep, some_of,
  some_of-append, ◌==◌, ==_iff, str_eq, str_eq_iff,
}
use aiops_apm_anomaly_detect.Errors.{ok, >>=-eq-ok}
use aiops_apm_anomaly_detect.Models.Signal.{Signal, ref_of}
use aiops_apm_anomaly_detect.Models.Config.{SuppressorSpec}
use aiops_apm_anomaly_detect.Plugins.{Plugin, Registry, SuppressContext, get}
use aiops_apm_anomaly_detect.Pipeline.Suppress.{
  Suppressed, is_suppressed, note, note_all, results_of, suppress_loop, l0_suppress,
}

-- One of the results gives a reason, which is not empty, for the signal with this identity.
abbrev pub Reported : List (Signal × Option String) → ℕ → Type 0
Reported results ref =
    (s : Signal) × (reason : String) × In (s, some reason) results
    × (reason ≢ "")
    × (ref ≡ ref_of s)

-- A suppressor of the specs reports the signal.
abbrev pub Suppresses : List SuppressorSpec → Registry → SuppressContext → List Signal → ℕ → Type 0
Suppresses specs registry ctx signals ref =
    (sc : SuppressorSpec) × (plugin : Plugin) × In sc specs
    × (get registry "suppressor" sc.name ≡ ok plugin)
    × Reported (results_of plugin sc signals ctx) ref

abbrev has : List Suppressed → ℕ → Bool
has suppressed ref = some_of (λ i. ref == ref_of i.signal) suppressed

has-note-none : (name : String) (s : Signal) (sup : List Suppressed) → note name (s, none) sup ≡ sup
unfolding note
has-note-none name s sup = refl

has-note-some :
    (name : String) (s : Signal) (reason : String) (sup : List Suppressed) (ref : ℕ)
    → (has (note name (s, some reason) sup) ref ≡ true)
      ↔ ((has sup ref ≡ true) ⊎ ((str_eq reason "" ≡ false) × (ref ≡ ref_of s)))
unfolding note
has-note-some name s reason sup ref =
    elim (Bool-cases (not (str_eq reason "") && not (has sup (ref_of s)))) [
      | inl e ↦ rw e (
          ground (
            arith,
            ==_iff ref (ref_of s),
            some_of-append (λ i. ref == ref_of i.signal) sup
                (record { signal = s; reason = reason; suppressor = name } ∷ []),
          ))
      | inr e ↦ rw e (
        λ t. inl t,
        λ t. elim t [
          | inl t ↦ t
          | inr (filled, same) ↦ subst (λ r. has sup r ≡ true) (sym same) (ground arith)
        ],
      )
    ]

has-note_all :
    (name : String) (results : List (Signal × Option String)) (sup : List Suppressed) (ref : ℕ)
    → (has (note_all name results sup) ref ≡ true) ↔ ((has sup ref ≡ true) ⊎ Reported results ref)
unfolding note_all
has-note_all name [] sup ref =
    (λ t. inl t, λ t. elim t [ inl t ↦ t | inr (s, r, i, n, e) ↦ elim i [ ] ])
has-note_all name ((s, none) ∷ rest) sup ref =
    let ih = has-note_all name rest sup ref in
    rw (has-note-none name s sup) (
      λ t. elim (ih.0 t) [ inl t ↦ inl t | inr (u, r, i, n, e) ↦ inr (u, r, inr i, n, e) ],
      λ t. ih.1 (elim t [
        | inl t ↦ inl t
        | inr (u, r, i, n, e) ↦ elim i [
          | inl same ↦ absurd (ground (arith, ap (λ (p : Signal × Option String). p.1) same))
          | inr j ↦ inr (u, r, j, n, e)
        ]
      ]),
    )
has-note_all name ((s, some reason) ∷ rest) sup ref =
    let ih = has-note_all name rest (note name (s, some reason) sup) ref in
    let first = has-note-some name s reason sup ref in
    (
      λ t. elim (ih.0 t) [
        | inr (u, r, i, n, e) ↦ inr (u, r, inr i, n, e)
        | inl t ↦ elim (first.0 t) [
          | inl t ↦ inl t
          | inr (filled, e) ↦
              inr (s, reason, inl refl, (λ z. ground (arith, str_eq_iff reason "")), e)
        ]
      ],
      λ t. ih.1 (elim t [
        | inl t ↦ inl (first.1 (inl t))
        | inr (u, r, i, n, e) ↦ elim i [
          | inr j ↦ inr (u, r, j, n, e)
          | inl same ↦
              let signal : u ≡ s = ap (λ (p : Signal × Option String). p.0) same in
              let text : some r ≡ some reason = ap (λ (p : Signal × Option String). p.1) same in
              let reason_same : r ≡ reason = cc in
              let filled : str_eq reason "" ≡ false = elim (Bool-cases (str_eq reason "")) [
                | inl z ↦ absurd (n (reason_same ∙ (str_eq_iff reason "").0 z))
                | inr z ↦ z
              ] in
              inl (first.1 (inr (filled, e ∙ ap ref_of signal)))
        ]
      ]),
    )

has-suppress_loop :
    (specs : List SuppressorSpec) (registry : Registry) (ctx : SuppressContext)
    (signals : List Signal) (sup done : List Suppressed) (ref : ℕ)
    → suppress_loop specs registry ctx signals sup ≡ ok done
    → (has done ref ≡ true) ↔ ((has sup ref ≡ true) ⊎ Suppresses specs registry ctx signals ref)
unfolding suppress_loop
has-suppress_loop [] registry ctx signals sup done ref run =
    let same : sup ≡ done = cc in
    subst
      (λ d. (has d ref ≡ true) ↔ ((has sup ref ≡ true) ⊎ Suppresses [] registry ctx signals ref))
      same (λ t. inl t, λ t. elim t [ inl t ↦ t | inr (sc, p, i, g, r) ↦ elim i [ ] ])
has-suppress_loop (sc ∷ specs) registry ctx signals sup done ref run =
    let (plugin, got, next) = >>=-eq-ok (get registry "suppressor" sc.name) _ run in
    let ih = has-suppress_loop specs registry ctx signals _ done ref next in
    let step = has-note_all sc.name (results_of plugin sc signals ctx) sup ref in
    (
      λ t. elim (ih.0 t) [
        | inr (c, p, i, g, r) ↦ inr (c, p, inr i, g, r)
        | inl t ↦ elim (step.0 t) [ inl t ↦ inl t | inr r ↦ inr (sc, plugin, inl refl, got, r) ]
      ],
      λ t. ih.1 (elim t [
        | inl t ↦ inl (step.1 (inl t))
        | inr (c, p, i, g, r) ↦ elim i [
          | inr j ↦ inr (c, p, j, g, r)
          | inl same ↦
              let both : ok plugin ≡ ok p =
                sym got
                ∙ ap (λ (u : SuppressorSpec). get registry "suppressor" u.name) (sym same)
                ∙ g in
              let plugins : plugin ≡ p = cc in
              inl (
                step.1 (
                  inr (
                    subst (λ u. Reported (results_of plugin u signals ctx) ref) same
                      (subst (λ u. Reported (results_of u c signals ctx) ref) (sym plugins) r))))
        ]
      ]),
    )

-- When the suppression returns, a signal is left exactly when it was there and no suppressor of the
-- configuration gives a reason, which is not empty, for a signal of its identity.
pub l0_suppress-survivors :
    (specs : List SuppressorSpec) (registry : Registry) (ctx : SuppressContext)
    (signals kept : List Signal) (suppressed : List Suppressed) (s : Signal)
    → l0_suppress specs registry ctx signals ≡ ok (suppressed, kept)
    → In s kept ↔ (In s signals × (¬ Suppresses specs registry ctx signals (ref_of s)))
unfolding l0_suppress
l0_suppress-survivors specs registry ctx signals kept suppressed s run =
    let (done, loop, pair) = >>=-eq-ok (suppress_loop specs registry ctx signals []) _ run in
    let noted = has-suppress_loop specs registry ctx signals [] done (ref_of s) loop in
    let rest : keep (λ u. not (is_suppressed done u)) signals ≡ kept = cc in
    subst (λ k. In s k ↔ (In s signals × (¬ Suppresses specs registry ctx signals (ref_of s)))) rest
      (
        λ i.
            let (there, left) = keep-In (λ u. not (is_suppressed done u)) signals s i in
            (there, λ r. let t = noted.1 (inr r) in ground arith),
        λ (there, unreported).
            In-keep (λ u. not (is_suppressed done u)) signals s there
              (elim (Bool-cases (has done (ref_of s))) [
                | inr f ↦ rw f refl
                | inl t ↦ elim (noted.0 t) [
                  | inl none_true ↦ absurd (ground arith)
                  | inr r ↦ absurd (unreported r)
                ]
              ]),
      )
