-- ===== src/Metrics/Seed.antt =====
-- Seeding the built-in metrics once is enough.
use ai_detention.Prelude.{subst, append-nil, str_eq_refl}
use ai_detention.Metrics.{
  missing_metrics, seed_builtin_metrics, MetricDef, builtin_named, add_missing, builtin_row,
  builtin_metrics,
}
use ai_detention.Prelude.{
  List, String, ℕ, Bool, ◌∷◌, ◌≡◌, not, Option, true, any, [], str_eq, inl, some, arith, ◌⊎◌, inr,
  none, refl, All, ◌++◌, ◌∙◌, sym, str_eq_iff, false,
}
use ai_detention.Models.Metric.{Metric}
use ai_detention.Database.Table.{
  select, scalar_one_or_none, select-append, found-select, missed-select,
}
use ai_detention.Errors.{Result, ok, err, Result-cases}
use ai_detention.Database.Session.{World}

-- No two definitions have one name.
abbrev names_free : String → List MetricDef → Bool
names_free name defs = not (any (λ (d : MetricDef). str_eq d.name name) defs)

abbrev Distinct : List MetricDef → Type 0
Distinct [] = Unit
Distinct (d ∷ ds) = (names_free d.name ds ≡ true) × Distinct ds

abbrev HasOne : List Metric → MetricDef → Type 0
HasOne table d = (m : Metric) × (select (builtin_named d.name) table ≡ m ∷ [])

other_text : (s t : String) → str_eq s t ≡ false → str_eq t s ≡ false
other_text s t h = ground (arith, str_eq_iff s t, str_eq_iff t s)

module _ (new_id : String → ℕ) where
  add_missing_cases :
      (found : Result (Option Metric)) (def : MetricDef) (rest : Result (List Metric))
      {rows : List Metric}
      → add_missing new_id found def rest ≡ ok rows
      → ((m : Metric) × (found ≡ ok (some m)) × (rest ≡ ok rows))
        ⊎ ((more : List Metric) × (found ≡ ok none)
            × (rest ≡ ok more)
            × (rows ≡ builtin_row new_id def ∷ more))
  add_missing_cases (err e) def rest h = absurd (ground arith)
  add_missing_cases (ok (some m)) def rest h = inl (m, refl, h)
  add_missing_cases (ok none) def (err e) h = absurd (ground arith)
  add_missing_cases (ok none) def (ok rows) h = inr (rows, refl, refl, ground arith)

  -- No row is added under another name.
  missing_metrics_other :
      (name : String) (defs : List MetricDef) (table : List Metric) {rows : List Metric}
      → names_free name defs ≡ true
      → missing_metrics new_id defs table ≡ ok rows
      → select (builtin_named name) rows ≡ []
  unfolding missing_metrics select
  missing_metrics_other name [] table free h = ground arith
  missing_metrics_other name (d ∷ ds) table {rows} free h =
      elim (add_missing_cases (scalar_one_or_none (select (builtin_named d.name) table)) d
        (missing_metrics new_id ds table) h) [
          | inl (m, found, rest) ↦ missing_metrics_other name ds table (ground arith) rest
          | inr (more, missed, rest, eq) ↦
              let others = missing_metrics_other name ds table (ground arith) rest in
              rw eq (ground arith)
        ]

  -- A row under another name is not seen.
  HasOne-insert :
      (d : MetricDef) (table more : List Metric) (ds : List MetricDef)
      → names_free d.name ds ≡ true
      → All (HasOne (table ++ more)) ds
      → All (HasOne (table ++ builtin_row new_id d ∷ more)) ds
  HasOne-insert d table more [] free h = tt
  HasOne-insert d table more (e ∷ es) free ((m, one), h) =
      let other = other_text e.name d.name (ground arith) in
      (
        (
          m,
          select-append (builtin_named e.name) table (builtin_row new_id d ∷ more)
              ∙ unfold select in
                rw other (sym (select-append (builtin_named e.name) table more) ∙ one),
        ),
        HasOne-insert d table more es (ground arith) h,
      )

  -- The table and the new rows hold each name once.
  missing_metrics_complete :
      (defs : List MetricDef) (table : List Metric) {rows : List Metric}
      → Distinct defs
      → missing_metrics new_id defs table ≡ ok rows
      → All (HasOne (table ++ rows)) defs
  unfolding missing_metrics
  missing_metrics_complete [] table distinct h = tt
  missing_metrics_complete (d ∷ ds) table {rows} (free, distinct) h =
      elim (add_missing_cases (scalar_one_or_none (select (builtin_named d.name) table)) d
        (missing_metrics new_id ds table) h) [
          | inl (m, found, rest) ↦ (
            (
              m,
              select-append (builtin_named d.name) table rows
                  ∙ rw
                      (
                        found-select (builtin_named d.name) table found,
                        missing_metrics_other d.name ds table free rest,
                      )
                      refl,
            ),
            missing_metrics_complete ds table distinct rest,
          )
          | inr (more, missed, rest, eq) ↦
              let none_before = missed-select (builtin_named d.name) table missed in
              let none_after = missing_metrics_other d.name ds table free rest in
              let first : HasOne (table ++ builtin_row new_id d ∷ more) d = (
                builtin_row new_id d,
                select-append (builtin_named d.name) table (builtin_row new_id d ∷ more)
                    ∙ rw none_before (unfold select in rw (str_eq_refl d.name, none_after) refl),
              ) in
              let others =
                HasOne-insert d table more ds free
                  (missing_metrics_complete ds table distinct rest) in
              subst (λ r. All (HasOne (table ++ r)) (d ∷ ds)) (sym eq) (first, others)
        ]

  -- Where each name is found, nothing is missing.
  missing_metrics_none :
      (defs : List MetricDef) (table : List Metric)
      → All (HasOne table) defs
      → missing_metrics new_id defs table ≡ ok []
  unfolding missing_metrics
  missing_metrics_none [] table h = refl
  missing_metrics_none (d ∷ ds) table ((m, one), h) = rw one (missing_metrics_none ds table h)

  builtin_metrics-Distinct : Distinct builtin_metrics
  builtin_metrics-Distinct = (refl, (refl, (refl, (refl, (refl, (refl, (refl, (refl, tt))))))))

  seeded :
      (w : World) {n : ℕ}
      → (seed_builtin_metrics new_id w).0 ≡ ok n
      → (rows : List Metric) × (missing_metrics new_id builtin_metrics w.db.metrics ≡ ok rows)
        × ((seed_builtin_metrics new_id w).1.db.metrics ≡ w.db.metrics ++ rows)
  unfolding seed_builtin_metrics
  seeded w {n} h = elim (Result-cases (missing_metrics new_id builtin_metrics w.db.metrics)) [
    | inl (rows, e) ↦ (rows, e, rw e refl)
    | inr (x, e) ↦ absurd (ground (arith, e, h))
  ]

  seed_none :
      (w : World)
      → missing_metrics new_id builtin_metrics w.db.metrics ≡ ok []
      → seed_builtin_metrics new_id w ≡ (ok 0, w)
  unfolding seed_builtin_metrics
  seed_none w h = rw (h, append-nil w.db.metrics) refl

  -- If seeding succeeds, the table holds each built-in metric's name once among the built-in rows
  -- that are not deleted, and seeding again adds nothing.
  pub seed_once :
      (w : World) {n : ℕ}
      → (seed_builtin_metrics new_id w).0 ≡ ok n
      → let w' = (seed_builtin_metrics new_id w).1 in
        All
          (λ d. (m : Metric) × (select (builtin_named d.name) w'.db.metrics ≡ m ∷ []))
          builtin_metrics
        × (seed_builtin_metrics new_id w' ≡ (ok 0, w'))
  seed_once w h =
      let (rows, missing, added) = seeded w h in
      let all_there : All (HasOne (seed_builtin_metrics new_id w).1.db.metrics) builtin_metrics =
        subst (λ table. All (HasOne table) builtin_metrics) (sym added)
          (missing_metrics_complete builtin_metrics w.db.metrics builtin_metrics-Distinct
            missing) in
      (
        all_there,
        seed_none (seed_builtin_metrics new_id w).1
            (missing_metrics_none builtin_metrics _ all_there),
      )
