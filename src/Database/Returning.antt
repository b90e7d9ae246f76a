-- ===== src/Database/Returning.antt =====
-- What sessions return, as compositions: a fact about the value of a session that does not raise.
use ai_detention.Database.Session.{World, Session, ◌>>=◌, continue, pure, gets}
use ai_detention.Errors.{Result, ok, ok_injective, err}
use ai_detention.Prelude.{◌≡◌, subst, arith, refl}

unfoldable pub Returns {ℓ κ} : {A : Type ℓ} → (A → Type κ) → Session A → World → Type (ℓ ⊔ κ)
Returns {A = A} P m w = (a : A) → (m w).0 ≡ ok a → P a

module _ {ℓ κ} {A : Type ℓ} (P : A → Type κ) where
  pub pure-Returns : (a : A) (w : World) → P a → Returns P (pure a) w
  unfolding Returns
  pure-Returns a w p b h = subst P (ok_injective h) p

  pub gets-Returns : (f : World → A) (w : World) → P (f w) → Returns P (gets f) w
  unfolding Returns
  gets-Returns f w p b h = subst P (ok_injective h) p

module _ {ℓ κ ℓ' κ'} {A : Type ℓ} {B : Type ℓ'} (P : A → Type κ) (Q : B → Type κ') (m : Session A)
    (k : A → Session B) (w : World) (hm : Returns P m w)
    (hk : (a : A) (w' : World) → P a → Returns Q (k a) w') where
  continue-Returns :
      (p : Result A × World)
      → ((a : A) → p.0 ≡ ok a → P a)
      → (b : B) → (continue p.0 k p.1).0 ≡ ok b
      → Q b
  unfolding Returns
  continue-Returns (ok a, w') holds b h = hk a w' (holds a refl) b h
  continue-Returns (err e, w') holds b h = absurd (ground arith)

  pub bind-Returns : Returns Q (m >>= k) w
  unfolding Returns
  bind-Returns b h = continue-Returns (m w) hm b h
