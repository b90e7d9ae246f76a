-- ===== src/Database/Reading.antt =====
-- Sessions that leave the database as it is, as compositions of such sessions.
use ai_detention.Database.Session.{World, Session, ◌>>=◌, continue, pure, gets, found_or_raise}
use ai_detention.Errors.{Error, Result, ok, err}
use ai_detention.Prelude.{◌≡◌, refl, Option, some, ◌∙◌, none}

-- Whether it returns or raises, the tables stay.
unfoldable pub KeepsDb {ℓ} : {A : Type ℓ} → Session A → Type 0
KeepsDb m = (w : World) → (m w).1.db ≡ w.db

module _ {ℓ} {A : Type ℓ} where
  pub pure-KeepsDb : (a : A) → KeepsDb (pure a)
  unfolding KeepsDb
  pure-KeepsDb a w = refl

  pub gets-KeepsDb : (f : World → A) → KeepsDb (gets f)
  unfolding KeepsDb
  gets-KeepsDb f w = refl

  pub found_or_raise-KeepsDb : (e : Error) (o : Option A) → KeepsDb (found_or_raise e o)
  unfolding KeepsDb
  found_or_raise-KeepsDb e none w = refl
  found_or_raise-KeepsDb e (some a) w = refl

module _ {ℓ κ} {A : Type ℓ} {B : Type κ} (m : Session A) (k : A → Session B) (hm : KeepsDb m)
    (hk : (a : A) → KeepsDb (k a)) where
  continue-KeepsDb :
      (p : Result A × World) (w : World) → p.1.db ≡ w.db → (continue p.0 k p.1).1.db ≡ w.db
  unfolding KeepsDb
  continue-KeepsDb (ok a, w') w h = hk a w' ∙ h
  continue-KeepsDb (err e, w') w h = h

  pub bind-KeepsDb : KeepsDb (m >>= k)
  unfolding KeepsDb
  bind-KeepsDb w = continue-KeepsDb (m w) w (hm w)
