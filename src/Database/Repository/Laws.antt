-- ===== src/Database/Repository/Laws.antt =====
-- Soft deletion, lookups and pages of BaseRepository.
use ai_detention.Prelude.{
  ℕ, ◌+◌, ◌≡◌, refl, false, none, some, List, [], ◌∷◌, arith, length, is_none, All, ◌==◌, ap, ◌&&◌,
  ◌≢◌,
}
use ai_detention.Errors.{ok}
use ai_detention.Database.Table.{
  select, update_where, count, found-holds, select-delete_where, select-update_where,
  count-delete_where, length-update_where, All-delete_where, scalar_one_or_none,
}
use ai_detention.Database.Repository.{
  Model, IsModel, deleted_before, get_by_id, get_by_id_and_org, exists, soft_delete,
  hard_delete_expired, exists_conditions,
}

module _ {ℓ} {A : Type ℓ} (model : Model A) where
  open model use {id, organization_id, deleted_at, set_deleted_at}

  -- A row that `get_by_id_and_org` finds, deleted rows left out, has the id and the organization
  -- that were asked for, and is not deleted.
  get_by_id_and_org_sound :
      (entity_id org_id : ℕ) (table : List A) {x : A}
      → get_by_id_and_org model false entity_id org_id table ≡ ok (some x)
      → (id x ≡ entity_id) × (organization_id x ≡ org_id) × (deleted_at x ≡ none)
  unfolding get_by_id_and_org
  get_by_id_and_org_sound entity_id org_id table {x} h = ground (
    arith,
    found-holds (λ y. is_none (deleted_at y) && (id y == entity_id && organization_id y == org_id))
        table h,
  )

module _ {ℓ} {A : Type ℓ} (model : Model A) (laws : IsModel model) where
  open model use {id, organization_id, deleted_at, set_deleted_at}

  count-soft_deleted :
      (entity_id now : ℕ) (table : List A)
      → let own = exists_conditions model entity_id none in
        count own (update_where own (set_deleted_at (some now)) table) ≡ 0
  unfolding select update_where
  count-soft_deleted entity_id now [] = refl
  count-soft_deleted entity_id now (x ∷ xs) =
      ground (arith, count-soft_deleted entity_id now xs, laws.deleted_at-set (some now) x)

  -- After `soft_delete` the row is there no more for `exists`, the table has as many rows as
  -- before, and what `get_by_id` finds of any other id is unchanged. The call reports a row found
  -- exactly when `exists` saw one before it.
  soft_delete_hides :
      (entity_id now : ℕ) (table : List A)
      → let (after, found) = soft_delete model entity_id none now table in
        (exists model entity_id none after ≡ false)
        × (found ≡ exists model entity_id none table)
        × (length after ≡ length table)
        × ((other : ℕ)
            → other ≢ entity_id
            → get_by_id model false other after ≡ get_by_id model false other table)
  unfolding soft_delete exists get_by_id
  soft_delete_hides entity_id now table = (
    rw (count-soft_deleted entity_id now table) refl,
    refl,
    length-update_where _ _ table,
    λ other ne. ap scalar_one_or_none (
        select-update_where _ _ _ table (λ x hit. ground arith)
          (λ x hit. ground (arith, laws.id-set (some now) x))),
  )

module _ {ℓ} {A : Type ℓ} (model : Model A) where
  open model use {id, organization_id, deleted_at, set_deleted_at}

  -- `hard_delete_expired` reports as many rows as are gone, leaves none that was deleted before
  -- the cutoff, and leaves every lookup of rows that are not deleted as it was.
  hard_delete_expired_exact :
      (cutoff : ℕ) (table : List A)
      → let (after, deleted) = hard_delete_expired model cutoff table in
        (length after + deleted ≡ length table)
        × All (λ x. deleted_before (deleted_at x) cutoff ≡ false) after
        × ((entity_id : ℕ)
            → get_by_id model false entity_id after ≡ get_by_id model false entity_id table)
  unfolding hard_delete_expired get_by_id
  hard_delete_expired_exact cutoff table = (
    count-delete_where _ table,
    All-delete_where _ table,
    λ entity_id. ap scalar_one_or_none (select-delete_where _ _ table (λ x old. ground arith)),
  )
