-- ===== src/Prelude/Dict.antt =====
-- Python's `dict` with text keys, as the list of its items in the order of insertion.
use agent_sdk.Prelude.{
  String, ◌≡◌, refl, ◌∙◌, Option, none, some, List, [], ◌∷◌, map, arith, str_eq, str_eq→eq,
  eq→str_eq, str_eq_refl, if◌then◌else◌,
}

abbrev pub Dict {ℓ} : Type ℓ → Type ℓ
Dict V = List (String × V)

module _ {ℓ} {V : Type ℓ} where
  -- d.get(k)
  unfoldable pub get : String → Dict V → Option V
  get k [] = none
  get k ((j, v) ∷ d) = if str_eq j k then some v else get k d

  -- d[k] = v: an old key keeps its place.
  unfoldable pub put : String → V → Dict V → Dict V
  put k v [] = (k, v) ∷ []
  put k v ((j, w) ∷ d) = if str_eq j k then (j, v) ∷ d else (j, w) ∷ put k v d

  -- d.update(e)
  unfoldable pub update : Dict V → Dict V → Dict V
  update d [] = d
  update d ((k, v) ∷ e) = update (put k v d) e

  abbrev pub keys : Dict V → List String
  keys = map (λ p. p.0)

  abbrev pub values : Dict V → List V
  values = map (λ p. p.1)

  pub get-put :
      (k j : String) (v : V) (d : Dict V)
      → get j (put k v d) ≡ (if str_eq k j then some v else get j d)
  unfolding get put
  get-put k j v [] = refl
  get-put k j v ((i, w) ∷ d) = ground (
    arith,
    get-put k j v d,
    str_eq→eq i k,
    str_eq→eq k j,
    str_eq→eq i j,
    eq→str_eq i k,
    eq→str_eq k j,
    eq→str_eq i j,
  )

  pub get-put_self : (k : String) (v : V) (d : Dict V) → get k (put k v d) ≡ some v
  get-put_self k v d = rw (get-put, str_eq_refl)

  -- A key that the second dictionary lacks keeps its value.
  pub get-update-none : (k : String) (d e : Dict V) → get k e ≡ none → get k (update d e) ≡ get k d
  unfolding get update
  get-update-none k d [] h = refl
  get-update-none k d ((j, v) ∷ e) h =
      ground (arith, get-update-none k (put j v d) e, get-put j k v d)

  -- What an update puts last, stays.
  pub get-update-put :
      (k : String) (v : V) (d e : Dict V) → get k e ≡ none → get k (update (put k v d) e) ≡ some v
  get-update-put k v d e h = get-update-none k (put k v d) e h ∙ get-put_self k v d
