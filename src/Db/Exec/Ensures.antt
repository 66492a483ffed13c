-- ===== src/Db/Exec/Ensures.antt =====
-- What an action ensures of the value that it returns, from whatever state it starts.
use mathlib.Core.Path.{subst}
use agent_sdk.Prelude.{◌≡◌, refl}
use agent_sdk.Types.{Error, Result, ok, err}
use agent_sdk.Db.Exec.{World, Exec, pure, raise, ◌>>=◌, continue}

pub record Ensures {Db A : Type 0} (P : A → Type 0) (m : Exec Db A) : Type 0 where
  pub at : (w : World Db) (a : A) → (m w).0 ≡ ok a → P a

module _ {Db A : Type 0} {P : A → Type 0} where
  pub Ensures-pure : (a : A) → P a → Ensures {Db = Db} P (pure a)
  unfolding pure
  Ensures-pure a p = record { at = λ w b e. subst P (cc) p }

  pub Ensures-raise : (e : Error) → Ensures {Db = Db} P (raise e)
  unfolding raise
  Ensures-raise e = record { at = λ w b h. cc }

  pub Ensures-weaken :
      {Q : A → Type 0} (m : Exec Db A) → Ensures P m → ((a : A) → P a → Q a) → Ensures Q m
  Ensures-weaken m k f = record { at = λ w a e. f a (k.at w a e) }

module _ {Db A B : Type 0} (Q : B → Type 0) where
  continue-at :
      (r : Result A) (f : A → Exec Db B) (w : World Db) (b : B)
      → ((a : A) → r ≡ ok a → Ensures Q (f a))
      → (continue r f w).0 ≡ ok b
      → Q b
  continue-at (ok a) f w b kf h = (kf a refl).at w b h
  continue-at (err e) f w b kf h = cc

  pub Ensures-bind :
      {P : A → Type 0} (m : Exec Db A) (f : A → Exec Db B)
      → Ensures P m
      → ((a : A) → P a → Ensures Q (f a))
      → Ensures Q (m >>= f)
  unfolding ◌>>=◌
  Ensures-bind m f km kf = record {
    at = λ w b h. continue-at (m w).0 f (m w).1 b (λ a e. kf a (km.at w a e)) h;
  }

  -- The value of the first action is not needed.
  pub Ensures-then :
      (m : Exec Db A) (f : A → Exec Db B) → ((a : A) → Ensures Q (f a)) → Ensures Q (m >>= f)
  unfolding ◌>>=◌
  Ensures-then m f kf = record { at = λ w b h. continue-at (m w).0 f (m w).1 b (λ a e. kf a) h }
