-- ===== src/Database/Repository.antt =====
-- BaseRepository (src/repositories/base_repository.py), for any model with an id, an organization
-- and a time of soft deletion. Its methods act on the model's table. The order that the database
-- gives to the rows of a page is the parameter `order_by`.
pub mod Laws
use ai_detention.Prelude.{
  ℕ, ◌-◌, ◌*◌, Bool, true, ◌&&◌, ◌||◌, not, Option, none, some, List, [], ◌∷◌, ◌++◌, is_none, ltb,
  ◌==◌, length, take, drop, ◌≡◌, false,
}
use ai_detention.Errors.{Result}
use ai_detention.Database.Table.{select, update_where, delete_where, count, scalar_one_or_none}

pub record Model {ℓ} (A : Type ℓ) : Type ℓ where
  pub id : A → ℕ
  pub organization_id : A → ℕ
  pub deleted_at : A → Option ℕ
  pub set_deleted_at : Option ℕ → A → A

-- deleted_at is not None and deleted_at < cutoff
abbrev pub deleted_before : Option ℕ → ℕ → Bool
deleted_before none cutoff = false
deleted_before (some t) cutoff = ltb t cutoff

-- organization_id == org_id, if an organization is given
abbrev pub in_org : Option ℕ → ℕ → Bool
in_org none org = true
in_org (some org_id) org = org == org_id

module _ {ℓ} {A : Type ℓ} (model : Model A) where
  open model use {id, organization_id, deleted_at, set_deleted_at}

  -- The filter of _base_query.
  abbrev pub base_query : Bool → A → Bool
  base_query include_deleted x = include_deleted || is_none (deleted_at x)

  unfoldable pub get_by_id : Bool → ℕ → List A → Result (Option A)
  get_by_id include_deleted entity_id table =
      scalar_one_or_none (select (λ x. base_query include_deleted x && id x == entity_id) table)

  unfoldable pub get_by_id_and_org : Bool → ℕ → ℕ → List A → Result (Option A)
  get_by_id_and_org include_deleted entity_id org_id table = scalar_one_or_none (
      select
        (λ x. base_query include_deleted x && (id x == entity_id && organization_id x == org_id))
        table)

  abbrev pub list_conditions : Bool → ℕ → (A → Bool) → A → Bool
  list_conditions include_deleted org_id extra_filters x =
      organization_id x == org_id && (base_query include_deleted x && extra_filters x)

  -- The page, and the total over all pages.
  unfoldable pub list_by_org :
      (List A → List A) → Bool → (A → Bool) → ℕ → ℕ → ℕ → List A → List A × ℕ
  list_by_org order_by include_deleted extra_filters org_id page page_size table =
      let conditions = list_conditions include_deleted org_id extra_filters in
      (
        take page_size (drop ((page - 1) * page_size) (order_by (select conditions table))),
        count conditions table,
      )

  abbrev pub exists_conditions : ℕ → Option ℕ → A → Bool
  exists_conditions entity_id org_id x =
      id x == entity_id && (is_none (deleted_at x) && in_org org_id (organization_id x))

  unfoldable pub exists : ℕ → Option ℕ → List A → Bool
  exists entity_id org_id table = ltb 0 (count (exists_conditions entity_id org_id) table)

  unfoldable pub create : A → List A → List A
  create entity table = table ++ entity ∷ []

  unfoldable pub create_many : List A → List A → List A
  create_many entities table = table ++ entities

  -- The table after it, and whether a row was found.
  unfoldable pub soft_delete : ℕ → Option ℕ → ℕ → List A → List A × Bool
  soft_delete entity_id org_id now table =
      let conditions = exists_conditions entity_id org_id in
      (update_where conditions (set_deleted_at (some now)) table, ltb 0 (count conditions table))

  -- The table after it, and the number of rows deleted.
  unfoldable pub hard_delete_expired : ℕ → List A → List A × ℕ
  hard_delete_expired cutoff table =
      let doomed = λ (x : A). deleted_before (deleted_at x) cutoff in
      (delete_where doomed table, count doomed table)

  -- What the code relies on of a model's columns: a deletion time that is set is read back, and
  -- the id and the organization stay.
  pub record IsModel : Type ℓ where
    pub deleted_at-set : (t : Option ℕ) (x : A) → deleted_at (set_deleted_at t x) ≡ t
    pub id-set : (t : Option ℕ) (x : A) → id (set_deleted_at t x) ≡ id x
    pub org-set : (t : Option ℕ) (x : A) → organization_id (set_deleted_at t x) ≡ organization_id x
