-- ===== src/Api/Router/Tenancy/Lists.antt =====
-- Lists of rows of an organization, and what the routes make of rows.
use ai_detention.Database.Returning.{Returns, bind-Returns, pure-Returns}
use ai_detention.Schemas.{model_validate, validate_all, validate_all_lem}
use ai_detention.Database.Session.{Session, World, ◌>>=◌, pure}
use ai_detention.Prelude.{
  Bool, ℕ, List, All, ◌≡◌, true, take, sym, arith, drop, ◌∷◌, suc, All-map, false, zero, subst, [],
}
use ai_detention.Database.Table.{select, All-select}
use ai_detention.Errors.{ok_injective}

-- An order of a list, whatever it is, has no other rows: what holds of all rows holds after it.
abbrev pub IsOrder : {A : Type 0} → (List A → List A) → Type 0
IsOrder {A} order =
    (p : A → Bool) (rows : List A) → All (λ x. p x ≡ true) rows → All (λ x. p x ≡ true) (order rows)

module _ {A : Type 0} (P : A → Type 0) where
  All-take : (n : ℕ) (xs : List A) → All P xs → All P (take n xs)
  All-take zero xs h = tt
  All-take (suc n) [] h = tt
  All-take (suc n) (x ∷ xs) h = (h.0, All-take n xs h.1)

  All-drop : (n : ℕ) (xs : List A) → All P xs → All P (drop n xs)
  All-drop zero xs h = h
  All-drop (suc n) [] h = tt
  All-drop (suc n) (x ∷ xs) h = All-drop n xs h.1

  pub ordered-All :
      (order : List A → List A) (p : A → Bool) (rows : List A)
      → IsOrder order
      → ((x : A) → p x ≡ true → P x)
      → All P (order (select p rows))
  ordered-All order p rows is_order holds =
      All-map (λ x. p x ≡ true) P holds (order (select p rows))
        (is_order p (select p rows) (All-select p rows))

  pub page-All :
      (order : List A → List A) (p : A → Bool) (rows : List A) (size skipped : ℕ)
      → IsOrder order
      → ((x : A) → p x ≡ true → P x)
      → All P (take size (drop skipped (order (select p rows))))
  page-All order p rows size skipped is_order holds =
      All-take size _ (All-drop skipped _ (ordered-All order p rows is_order holds))

module _ {A : Type 0} where
  pub model_validate-Returns :
      (fit : Bool) (row : A) (w : World) → Returns (λ v. v ≡ row) (model_validate fit row) w
  unfolding Returns
  model_validate-Returns true row w v h = sym (ok_injective h)
  model_validate-Returns false row w v h = absurd (ground arith)

  pub validate_all-Returns :
      (fit : Bool) (rows : List A) (w : World) → Returns (λ v. v ≡ rows) (validate_all fit rows) w
  unfolding Returns
  validate_all-Returns true rows w v h = ground (arith, (validate_all_lem rows w).0)
  validate_all-Returns false [] w v h = ground (arith, (validate_all_lem {A = A} [] w).1)
  validate_all-Returns false (row ∷ rows) w v h =
      absurd (ground (arith, (validate_all_lem (row ∷ rows) w).1))

module _ {A : Type 0} {B : Type 0} where
  pub shown-Returns :
      (Q : B → Type 0) (fit : Bool) (k : A → B) (row : A) (w : World)
      → Q (k row)
      → Returns Q (do validated ← model_validate fit row; pure (k validated)) w
  shown-Returns Q fit k row w q =
      bind-Returns (λ v. v ≡ row) Q (model_validate fit row) _ w (model_validate-Returns fit row w)
        (λ v w' e. pure-Returns Q (k v) w' (subst (λ x. Q (k x)) (sym e) q))

  module _ (P : A → Type 0) (Q : B → Type 0) (m : Session A) (fit : Bool) (k : A → B)
      (w : World) where
    pub one-Returns :
        Returns P m w
        → ((a : A) → P a → Q (k a))
        → Returns Q (do row ← m; validated ← model_validate fit row; pure (k validated)) w
    one-Returns hm hk =
        bind-Returns P Q m _ w hm (λ row w' p. shown-Returns Q fit k row w' (hk row p))

  module _ (P : List A → Type 0) (Q : B → Type 0) (fit : Bool) (w : World) where
    pub all-Returns :
        (m : Session (List A)) (k : List A → B)
        → Returns P m w
        → ((a : List A) → P a → Q (k a))
        → Returns Q (do rows ← m; items ← validate_all fit rows; pure (k items)) w
    all-Returns m k hm hk = bind-Returns P Q m _ w hm (λ rows w' p.
        bind-Returns (λ v. v ≡ rows) Q (validate_all fit rows) _ w'
          (validate_all-Returns fit rows w')
          (λ v w'' e. pure-Returns Q (k v) w'' (hk v (subst P (sym e) p))))

    pub page-Returns :
        (m : Session (List A × ℕ)) (k : List A → ℕ → B)
        → Returns (λ found. P found.0) m w
        → ((a : List A) (n : ℕ) → P a → Q (k a n))
        → Returns Q (do found ← m; items ← validate_all fit found.0; pure (k items found.1)) w
    page-Returns m k hm hk =
        bind-Returns (λ found. P found.0) Q m _ w hm
          (λ found w' p.
            bind-Returns (λ v. v ≡ found.0) Q (validate_all fit found.0) _ w'
              (validate_all-Returns fit found.0 w')
              (λ v w'' e. pure-Returns Q (k v found.1) w'' (hk v found.1 (subst P (sym e) p))))
