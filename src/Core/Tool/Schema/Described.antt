-- ===== src/Core/Tool/Schema/Described.antt =====
-- What the schema of a function asks of the LLM.
use agent_sdk.Prelude.{
  sym, ap, String, ◌≡◌, refl, ◌∙◌, Bool, true, false, not, ◌&&◌, ◌||◌, none, some, List, [], ◌∷◌,
  ◌++◌, arith, str_eq, if◌then◌else◌, Bool-cases, inl, inr,
}
use agent_sdk.Prelude.Dict
use agent_sdk.Prelude.Dict.{Dict, get, get-put}
use agent_sdk.Db.Sql.{any}
use agent_sdk.Core.Tool.Schema.{
  Schema, Parameter, ObjectSchema, injected, collect, hint_of, property_schema, if_any,
  build_schema_from_hints,
}

-- The names that the agent gives itself.
abbrev pub given_names : List String
given_names = "ctx" ∷ "context" ∷ "self" ∷ "cls" ∷ []

unfoldable pub listed : String → List String → Bool
unfolding any
listed k ns = any (λ n. str_eq n k) ns

-- A parameter of this name that the LLM gives.
unfoldable pub is_given : String → Parameter → Bool
unfolding any
is_given k p = str_eq p.name k && not (any (str_eq p.name) given_names)

-- And one without a default.
unfoldable pub is_needed : String → Parameter → Bool
unfolding is_given
is_needed k p = is_given k p && not p.has_default

unfoldable pub has : String → Dict Schema → Bool
has k d = elim (get k d) [ none ↦ false | some s ↦ true ]

unfoldable pub is_required : String → ObjectSchema → Bool
unfolding listed
is_required k s = elim s.required [ none ↦ false | some ns ↦ listed k ns ]

injected-given_names : (n : String) → injected n ≡ any (str_eq n) given_names
unfolding injected any
injected-given_names n = ground arith

injected-is_given : (k : String) (p : Parameter) → injected p.name ≡ true → is_given k p ≡ false
unfolding is_given
injected-is_given k p e = ground (arith, sym (injected-given_names p.name) ∙ e)

other-is_given :
    (k : String) (p : Parameter) → injected p.name ≡ false → is_given k p ≡ str_eq p.name k
unfolding is_given
other-is_given k p e = ground (arith, sym (injected-given_names p.name) ∙ e)

has-put :
    (k name : String) (s : Schema) (d : Dict Schema)
    → has k (Dict.put name s d) ≡ str_eq name k || has k d
unfolding has
has-put k name s d = elim (Bool-cases (str_eq name k)) [
  | inl e ↦ rw (has, get-put name k s d, e) refl
  | inr e ↦ rw (has, get-put name k s d, e) refl
]

any-append :
    (k : String) (ns : List String) (n : String)
    → listed k (ns ++ n ∷ []) ≡ listed k ns || str_eq n k
unfolding listed any
any-append k [] n = ground arith
any-append k (m ∷ ns) n = ground (arith, any-append k ns n)

-- The required names behind a parameter.
abbrev needed_with : Parameter → List String → List String
needed_with p ns = if p.has_default then ns else ns ++ p.name ∷ []

listed-needed_with :
    (k : String) (p : Parameter) (ns : List String)
    → listed k (needed_with p ns) ≡ listed k ns || (str_eq p.name k && not p.has_default)
listed-needed_with k p ns = elim (Bool-cases p.has_default) [
  | inl e ↦ rw e (ground arith)
  | inr e ↦ rw e (ground (arith, any-append k ns p.name))
]

collect-has :
    (k : String) (ps : List Parameter) (d : Dict Schema) (ns : List String)
    → has k (collect ps d ns).0 ≡ has k d || any (is_given k) ps
unfolding collect any
collect-has k [] d ns = ground arith
collect-has k (p ∷ ps) d ns = elim (Bool-cases (injected p.name)) [
  | inl e ↦ rw e (ground (arith, collect-has k ps d ns, injected-is_given k p e))
  | inr e ↦ rw e (
      collect-has k ps (Dict.put p.name (property_schema (hint_of p)) d) (needed_with p ns)
      ∙ ap (λ b. b || any (is_given k) ps) (has-put k p.name (property_schema (hint_of p)) d)
      ∙ ground (arith, other-is_given k p e))
]

collect-listed :
    (k : String) (ps : List Parameter) (d : Dict Schema) (ns : List String)
    → listed k (collect ps d ns).1 ≡ listed k ns || any (is_needed k) ps
unfolding collect any is_needed
collect-listed k [] d ns = ground arith
collect-listed k (p ∷ ps) d ns = elim (Bool-cases (injected p.name)) [
  | inl e ↦ rw e (ground (arith, collect-listed k ps d ns, injected-is_given k p e))
  | inr e ↦ rw e (
      collect-listed k ps (Dict.put p.name (property_schema (hint_of p)) d) (needed_with p ns)
      ∙ ap (λ b. b || any (is_needed k) ps) (listed-needed_with k p ns)
      ∙ ground (arith, other-is_given k p e))
]

required-if_any :
    (k : String) (ns : List String)
    → (elim (if_any ns) [ none ↦ false | some ms ↦ listed k ms ]) ≡ listed k ns
unfolding listed any
required-if_any k [] = refl
required-if_any k (n ∷ ns) = refl

-- The schema of a function describes, for every name, exactly the parameters of that name that are
-- not injected (`ctx`, `context`, `self`, `cls`), and requires exactly those without a default.
pub build_schema-Describes :
    (k : String) (ps : List Parameter)
    → (has k (build_schema_from_hints ps).properties ≡ any (is_given k) ps)
      × (is_required k (build_schema_from_hints ps) ≡ any (is_needed k) ps)
unfolding build_schema_from_hints is_required has get listed
build_schema-Describes k ps =
    (collect-has k ps [] [], required-if_any k (collect ps [] []).1 ∙ collect-listed k ps [] [])
