-- ===== src/Schemas.antt =====
-- Response schemas (src/schemas) against the rows that they are made from. A schema reads an
-- attribute of the row for each of its fields (from_attributes of BaseSchema); `model_validate`
-- raises if an attribute is missing or its value is none of the field's type. Fields and columns
-- are given by name and type, so that whether a row fits depends on its model alone.
pub mod Rows
pub mod Responses
use ai_detention.Prelude.{
  String, Bool, true, false, List, [], ◌∷◌, ◌&&◌, ◌||◌, str_eq, if◌then◌else◌, ◌≡◌, arith, refl,
}
use ai_detention.Database.Session.{Session, pure, raise, ◌>>=◌, World}
use ai_detention.Errors.{other_error, Result, ok, err}

-- The types of fields and attributes; `meta_data` is SQLAlchemy's MetaData, which every model
-- class has as its attribute `metadata`.
pub data FieldType : Type 0 where
  uuid text int float bool datetime dict list meta_data : FieldType
  enum : String → FieldType
  optional : FieldType → FieldType

-- Whether a field takes every value of an attribute's type: an enum of texts is a text, an integer
-- a float, and an optional field takes None too.
unfoldable pub takes : FieldType → FieldType → Bool
takes (optional f) (optional a) = takes f a
takes f (optional a) = false
takes (optional f) a = takes f a
takes (enum name) (enum name') = str_eq name name'
takes text (enum name) = true
takes float int = true
takes uuid uuid = true
takes text text = true
takes int int = true
takes float float = true
takes bool bool = true
takes datetime datetime = true
takes dict dict = true
takes list list = true
takes f a = false

abbrev pub Attributes : Type 0
Attributes = List (String × FieldType)

-- hasattr(row, name), and the value fits
unfoldable pub reads : String → FieldType → Attributes → Bool
unfolding takes
reads name field [] = false
reads name field ((key, type) ∷ rest) =
    if str_eq key name then takes field type else reads name field rest

unfoldable pub fits : Attributes → Attributes → Bool
unfolding reads
fits [] row = true
fits ((name, field) ∷ schema) row = reads name field row && fits schema row

-- Schema.model_validate(row), with what the response carries of the row.
abbrev pub model_validate {ℓ} : {A : Type ℓ} → Bool → A → Session A
model_validate true row = pure row
model_validate false row = raise (other_error "ValidationError")

-- [Schema.model_validate(row) for row in rows]
unfoldable pub validate_all {ℓ} : {A : Type ℓ} → Bool → List A → Session (List A)
validate_all fit [] = pure []
validate_all fit (row ∷ rows) = do
  item ← model_validate fit row
  items ← validate_all fit rows
  pure (item ∷ items)

abbrev pub refused {ℓ} : {A : Type ℓ} → List A → Result (List A)
refused [] = ok []
refused (row ∷ rows) = err (other_error "ValidationError")

-- Rows that fit are all taken over, and the first that does not fit raises.
pub validate_all_lem {ℓ} :
    {A : Type ℓ} (rows : List A) (w : World)
    → (validate_all true rows w ≡ (ok rows, w)) × (validate_all false rows w ≡ (refused rows, w))
unfolding validate_all
validate_all_lem [] w = (refl, refl)
validate_all_lem (row ∷ rows) w = (ground (arith, validate_all_lem rows w), refl)
