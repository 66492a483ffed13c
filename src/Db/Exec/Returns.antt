-- ===== src/Db/Exec/Returns.antt =====
-- An action that returns: from a state that meets `Pre`, it ends without an exception, with a value
-- and a state that meet `Post`.
use agent_sdk.Prelude.{◌≡◌, refl, ◌∙◌, ap}
use agent_sdk.Types.{ok}
use agent_sdk.Db.Exec.{World, Exec, pure, ◌>>=◌, bind-ok}

pub record Returns {Db A : Type 0} (Pre : World Db → Type 0) (m : Exec Db A)
    (Post : A → World Db → Type 0) : Type 0 where
  pub at : (w : World Db) → Pre w → (a : A) × ((m w).0 ≡ ok a) × Post a (m w).1

module _ {Db A : Type 0} where
  pub Returns-pure :
      {Pre : World Db → Type 0} {Post : A → World Db → Type 0} (a : A)
      → ((w : World Db) → Pre w → Post a w)
      → Returns Pre (pure a) Post
  unfolding pure
  Returns-pure a h = record { at = λ w p. (a, refl, h w p) }

  pub Returns-weaken :
      {Pre Pre' : World Db → Type 0} {Post Post' : A → World Db → Type 0} {m : Exec Db A}
      → Returns Pre m Post
      → ((w : World Db) → Pre' w → Pre w)
      → ((a : A) (w : World Db) → Post a w → Post' a w)
      → Returns Pre' m Post'
  Returns-weaken k f g = record { at = λ w p. let (a, e, q) = k.at w (f w p) in (a, e, g a _ q) }

  -- What does not depend on the state is known from the start.
  pub Returns-given :
      {Pre : World Db → Type 0} {P : Type 0} {Post : A → World Db → Type 0} (m : Exec Db A)
      → (P → Returns Pre m Post)
      → Returns (λ w. Pre w × P) m Post
  Returns-given m k = record { at = λ w (v, h). (k h).at w v }

module _ {Db A B : Type 0} where
  pub Returns-bind :
      {Pre : World Db → Type 0} {Mid : A → World Db → Type 0} {Post : B → World Db → Type 0}
      (m : Exec Db A) (f : A → Exec Db B)
      → Returns Pre m Mid
      → ((a : A) → Returns (Mid a) (f a) Post)
      → Returns Pre (m >>= f) Post
  Returns-bind {Post} m f k l = record {
    at = λ w p.
        let (a, e, mid) = k.at w p in
        let (b, e', post) = (l a).at (m w).1 mid in
        let run = bind-ok f m w e in (b, ap (λ x. x.0) run ∙ e', rw run post);
  }
