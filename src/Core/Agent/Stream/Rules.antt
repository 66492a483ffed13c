-- ===== src/Core/Agent/Stream/Rules.antt =====
-- What a generator yields and returns, when it ends without an exception.
use mathlib.Core.Path.{subst}
use agent_sdk.Prelude.{◌≡◌, refl, List, [], ◌∷◌, ◌++◌}
use agent_sdk.Types.{Result, ok, err}
use agent_sdk.Db.Exec.{World, Exec}
use agent_sdk.Db.Exec.Ensures.{Ensures}
use agent_sdk.Core.Agent.Stream.Yield.{StreamEvent, Gen, pure, onward, ◌>>=◌, emit, lift}

-- What holds of the events and the value of a generator that ends without an exception.
pub record Yields {Db B : Type 0} (P : List StreamEvent → B → Type 0) (g : Gen Db B) : Type 0 where
  pub at : (w : World Db) (b : B) → (g w).0.1 ≡ ok b → P (g w).0.0 b

module _ {Db : Type 0} where
  pub Yields-pure :
      {B : Type 0} {P : List StreamEvent → B → Type 0} (b : B)
      → P [] b
      → Yields {Db = Db} P (pure b)
  unfolding pure
  Yields-pure {P} b p = record { at = λ w c e. subst (P []) (cc) p }

  module _ {A B : Type 0} (P : List StreamEvent → B → Type 0) where
    onward-at :
        (es : List StreamEvent) (r : Result A) (f : A → Gen Db B) (w : World Db) (b : B)
        → ((a : A) → r ≡ ok a → Yields (λ fs. P (es ++ fs)) (f a))
        → (onward es r f w).0.1 ≡ ok b
        → P (onward es r f w).0.0 b
    unfolding onward
    onward-at es (ok a) f w b kf h = (kf a refl).at w b h
    onward-at es (err e) f w b kf h = cc

    pub Yields-bind :
        {Q : List StreamEvent → A → Type 0} (g : Gen Db A) (f : A → Gen Db B)
        → Yields Q g
        → ((es : List StreamEvent) (a : A) → Q es a → Yields (λ fs. P (es ++ fs)) (f a))
        → Yields P (g >>= f)
    unfolding ◌>>=◌
    Yields-bind g f kg kf = record {
      at = λ w b. onward-at (g w).0.0 (g w).0.1 f (g w).1 b (λ a e. kf (g w).0.0 a (kg.at w a e));
    }

    -- Behind an `await`.
    pub Yields-await :
        {Q : A → Type 0} (m : Exec Db A) (f : A → Gen Db B)
        → Ensures Q m
        → ((a : A) → Q a → Yields P (f a))
        → Yields P (lift m >>= f)
    unfolding ◌>>=◌ lift
    Yields-await m f km kf = record {
      at = λ w b. onward-at [] (m w).0 f (m w).1 b (λ a e. kf a (km.at w a e));
    }

    pub Yields-then :
        (m : Exec Db A) (f : A → Gen Db B) → ((a : A) → Yields P (f a)) → Yields P (lift m >>= f)
    Yields-then m f kf =
        Yields-await {Q = λ _. Unit {0}} m f (record { at = λ w a e. tt }) (λ a h. kf a)

  pub Yields-weaken :
      {B : Type 0} {P Q : List StreamEvent → B → Type 0} (g : Gen Db B)
      → Yields P g
      → ((es : List StreamEvent) (b : B) → P es b → Q es b)
      → Yields Q g
  Yields-weaken g k f = record { at = λ w b e. f (g w).0.0 b (k.at w b e) }

  -- Behind a `yield`.
  pub Yields-emit :
      {B : Type 0} (P : List StreamEvent → B → Type 0) (e : StreamEvent) (f : Unit {0} → Gen Db B)
      → Yields (λ es. P (e ∷ es)) (f tt)
      → Yields P (emit e >>= f)
  unfolding ◌>>=◌ emit
  Yields-emit P e f k = record { at = λ w b. onward-at P (e ∷ []) (ok tt) f w b (λ a h. k) }
