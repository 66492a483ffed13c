-- ===== src/Db/Repositories/StepRepo/Fields.antt =====
-- Which columns a status update of a step leaves alone.
use agent_sdk.Prelude.{
  String, ◌≡◌, Bool, true, false, Option, none, some, List, [], ◌∷◌, str_eq, if◌then◌else◌, All,
}
use agent_sdk.Prelude.Dict.{Dict, get, put, get-put}
use agent_sdk.Db.Sql.{Value, str}
use agent_sdk.Db.Repositories.StepRepo.{StepFields, status_fields, put_some}

-- The columns that may be set.
abbrev set_columns : List String
set_columns =
    "status" ∷ "completed_at" ∷ "started_at" ∷ "output_message" ∷ "tool_calls" ∷ "tool_results"
    ∷ "error" ∷ []

-- A column that is none of them.
abbrev pub Foreign : String → Type 0
Foreign k = All (λ j. str_eq j k ≡ false) set_columns

module _ (k : String) where
  lacks-put :
      (j : String) (v : Value) (d : Dict Value)
      → str_eq j k ≡ false
      → get k d ≡ none
      → get k (put j v d) ≡ none
  lacks-put j v d h g = rw (get-put, h) g

  lacks-put_some :
      (j : String) (v : Option String) (d : Dict Value)
      → str_eq j k ≡ false
      → get k d ≡ none
      → get k (put_some j v d) ≡ none
  lacks-put_some j none d h g = g
  lacks-put_some j (some v) d h g = lacks-put j (str v) d h g

  lacks-if :
      (b : Bool) (j : String) (v : Value) (d : Dict Value)
      → str_eq j k ≡ false
      → get k d ≡ none
      → get k (if b then put j v d else d) ≡ none
  lacks-if true j v d h g = lacks-put j v d h g
  lacks-if false j v d h g = g

  pub get-status_fields :
      (status time : String) (f : StepFields)
      → Foreign k
      → get k (status_fields status time f) ≡ none
  unfolding status_fields get
  get-status_fields status time f (s, (c, (b, (m, (t, (r, (e, end))))))) =
      let base : Dict Value = ("status", str status) ∷ [] in
      let done : Dict Value =
        if str_eq status "completed" then put "completed_at" (str time) base else base in
      lacks-put_some "error" f.error _ e (
        lacks-put_some "tool_results" f.tool_results _ r (
          lacks-put_some "tool_calls" f.tool_calls _ t (
            lacks-put_some "output_message" f.output_message _ m (
              lacks-if (str_eq status "running") "started_at" (str time) done b
                (lacks-if (str_eq status "completed") "completed_at" (str time) base c (rw s))))))
