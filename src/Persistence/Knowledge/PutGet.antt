-- ===== src/Persistence/Knowledge/PutGet.antt =====
-- What `put` stores, `get` finds.
use mathlib.Core.List.{Perm}
use mathlib.Core.Path.{subst}
use agent_sdk.Isolation.Reads.{project_all}
use agent_sdk.Prelude.{
  String, ◌≡◌, refl, sym, ap, ◌∙◌, true, Option, none, some, List, [], ◌∷◌, str_eq,
}
use agent_sdk.Prelude.Dict
use agent_sdk.Prelude.Dict.{get, keys, values, get-update-none, get-update-put}
use agent_sdk.Types.{ok}
use agent_sdk.Db.Sql
use agent_sdk.Db.Sql.{
  Value, null, int, str, Row, Cond, eq, Statement, bind, pair_up, satisfies, holds, sql_eq, keep,
  limit, project, same_key, same_value, upserted, written,
}
use agent_sdk.Db.Backend.{Backend}
use agent_sdk.Db.Exec.{World, pure, ◌>>=◌, execute, first, bind-ok, now}
use agent_sdk.Db.Exec.Rows.{execute-rows, execute-scope, fetch_one-rows}
use agent_sdk.Db.Keys.{
  Value-set, holds-same_value, get_of_same_value, same_value_of_get, and-left, and-right,
}
use agent_sdk.Db.Keys.Upserts.{first-upserted}
use agent_sdk.Isolation.Scope.{bind-get_user_scope}
use agent_sdk.Db.Repositories.SessionRepo.{or_else}
use agent_sdk.Db.Repositories.KnowledgeRepo
use agent_sdk.Db.Repositories.KnowledgeRepo.{entry_row, key_columns, updated_columns}
use agent_sdk.Core.Session.{lift}
use agent_sdk.Persistence.Memory.{text_or-some}
use agent_sdk.Persistence.Knowledge.{
  KnowledgeEntry, Loaded, metadata_text, row_to_entry, put, entry_of,
}
use agent_sdk.Persistence.Knowledge

-- The row has these texts.
pub record Stores (u ns k content metadata : String) (r : Row) : Type 0 where
  pub of_user : get "user_id" r ≡ some (str u)
  pub of_namespace : get "namespace" r ≡ some (str ns)
  pub of_key : get "key" r ≡ some (str k)
  pub has_content : get "content" r ≡ some (str content)
  pub has_metadata : get "metadata" r ≡ some (str metadata)

module _ (u ns k content metadata time : String) where
  abbrev row : Row
  row = entry_row u ns k content metadata time

  abbrev wanted : List (Cond × Value)
  wanted = (eq "user_id", str u) ∷ (eq "namespace", str ns) ∷ (eq "key", str k) ∷ []

  Stores-prop : (r : Row) → IsProp (Stores u ns k content metadata r)
  Stores-prop r = hlevel (Value-set)

  wanted-same_key : (r : Row) → satisfies wanted r ≡ same_key key_columns row r
  unfolding satisfies same_key get str_eq
  wanted-same_key r =
      rw
        (
          holds-same_value "user_id" row r u refl,
          holds-same_value "namespace" row r ns refl,
          holds-same_value "key" row r k refl,
        )
        refl

  -- The columns of the key, of a row with the same key.
  pub record Keyed (r : Row) : Type 0 where
    pub keyed_user : get "user_id" r ≡ some (str u)
    pub keyed_namespace : get "namespace" r ≡ some (str ns)
    pub keyed_key : get "key" r ≡ some (str k)

  Keyed-of : (r : Row) → same_key key_columns row r ≡ true → Keyed r
  unfolding same_key get str_eq
  Keyed-of r h =
      let rest = and-right (same_value "user_id" "user_id" row r) _ h in
      record {
        keyed_user = get_of_same_value "user_id" row r u refl (and-left _ _ h);
        keyed_namespace = get_of_same_value "namespace" row r ns refl (and-left _ _ rest);
        keyed_key =
            get_of_same_value "key" row r k refl
              (and-left _ true (and-right (same_value "namespace" "namespace" row r) _ rest));
      }

  same_key-of : (r : Row) → Keyed r → same_key key_columns row r ≡ true
  unfolding same_key get str_eq
  same_key-of r h =
      rw
        (
          same_value_of_get "user_id" row r u refl h.keyed_user,
          same_value_of_get "namespace" row r ns refl h.keyed_namespace,
          same_value_of_get "key" row r k refl h.keyed_key,
        )
        refl

  abbrev changed : Row → Row
  changed r = Dict.update r (project updated_columns row)

  changed-Keyed : (r : Row) → Keyed r → Keyed (changed r)
  unfolding project get str_eq
  changed-Keyed r h = record {
    keyed_user = get-update-none "user_id" r (project updated_columns row) refl ∙ h.keyed_user;
    keyed_namespace =
        get-update-none "namespace" r (project updated_columns row) refl ∙ h.keyed_namespace;
    keyed_key = get-update-none "key" r (project updated_columns row) refl ∙ h.keyed_key;
  }

  fresh : Stores u ns k content metadata row
  unfolding get str_eq
  fresh = record {
    of_user = refl;
    of_namespace = refl;
    of_key = refl;
    has_content = refl;
    has_metadata = refl;
  }

  updated :
      (r : Row) → same_key key_columns row r ≡ true → Stores u ns k content metadata (changed r)
  unfolding project get str_eq Dict.update
  updated r h =
      let keyed = changed-Keyed r (Keyed-of r h) in
      record {
        of_user = keyed.keyed_user;
        of_namespace = keyed.keyed_namespace;
        of_key = keyed.keyed_key;
        has_content =
            get-update-put "content" (str content) r
              (("metadata", str metadata) ∷ ("updated_at", str time) ∷ []) refl;
        has_metadata =
            get-update-put "metadata" (str metadata) (Dict.put "content" (str content) r)
              (("updated_at", str time) ∷ []) refl;
      }

  -- What a SELECT by the key finds behind the upsert.
  found :
      (rs ys : List Row)
      → Perm ys (keep (satisfies wanted) (upserted row key_columns updated_columns rs))
      → (r : Row) × (first ys ≡ some r) × Stores u ns k content metadata r
  unfolding get str_eq
  found =
      first-upserted (Stores u ns k content metadata) Stores-prop row key_columns updated_columns
        (satisfies wanted) wanted-same_key
        (same_key-of row (record { keyed_user = refl; keyed_namespace = refl; keyed_key = refl }))
        (λ r h. same_key-of (changed r) (changed-Keyed r (Keyed-of r h))) fresh updated

module _ {Db : Type 0} (E : Backend Db) (loads : String → Loaded) (u ns k content m : String) where
  abbrev pub entry : KnowledgeEntry
  entry = record { user_id = u; namespace = ns; key = k; content = content; metadata = m }

  -- A row with these texts is read as the entry.
  entry-Stores :
      (raw : String) (r : Row) (w : World Db)
      → metadata_text (loads raw) ≡ ok m
      → Stores u ns k content raw r
      → (entry_of E loads (some r) w).0 ≡ ok (some entry)
  unfolding row_to_entry lift ◌>>=◌ pure
  entry-Stores raw r w loaded h =
      rw
        (
          text_or-some "{}" "metadata" r raw h.has_metadata,
          loaded,
          text_or-some "" "user_id" r u h.of_user,
          text_or-some "" "namespace" r ns h.of_namespace,
          text_or-some "" "key" r k h.of_key,
          text_or-some "" "content" r content h.has_content,
        )
        refl

  module _ (caller : String) (metadata : Option String) (w : World Db) (scoped : w.scope ≡ some u)
      (stored : (put E loads caller ns k content metadata w).0 ≡ ok tt) where
    abbrev raw : String
    raw = or_else metadata "{}"

    abbrev new_row : Row
    new_row = row u ns k content raw (E.now w.reads)

    abbrev read : World Db
    read = (now E w).1

    abbrev after : World Db
    after = (put E loads caller ns k content metadata w).1

    abbrev statement : Statement
    statement = Statement.upsert "knowledge" (keys new_row) key_columns updated_columns

    ran : put E loads caller ns k content metadata w ≡ execute E statement (values new_row) read
    unfolding put KnowledgeRepo.put now
    ran = bind-get_user_scope _ u w scoped ∙ bind-ok _ (now E) w refl

    put-rows :
        E.rows after.db "knowledge"
        ≡ upserted new_row key_columns updated_columns (E.rows w.db "knowledge")
    unfolding written bind pair_up str_eq now
    put-rows =
        ap (λ x. E.rows x.1.db "knowledge") ran
        ∙ execute-rows E statement (values new_row) read
            (Sql.Bound.upsert "knowledge" new_row key_columns updated_columns) refl
            (sym (ap (λ x. x.0) ran) ∙ stored) "knowledge"

    put-scope : after.scope ≡ some u
    unfolding now
    put-scope = ap (λ x. x.1.scope) ran ∙ execute-scope E statement (values new_row) read ∙ scoped

    abbrev sorted : List Row
    sorted =
        E.sort none (
          keep (satisfies (wanted u ns k content raw (E.now w.reads)))
            (E.rows after.db "knowledge"))

    get-rows : KnowledgeRepo.get E ns k after ≡ (ok (first sorted), after)
    unfolding KnowledgeRepo.get bind pair_up limit
    get-rows =
        bind-get_user_scope _ u after put-scope
        ∙ fetch_one-rows E _ _ after "knowledge" ("*" ∷ [])
            (wanted u ns k content raw (E.now w.reads)) none none refl
        ∙ ap (λ (rs : List Row). (ok (first rs), after)) (project_all sorted)

    -- In the scope of a user, what a `put` that succeeds stores is what `get` then finds under the
    -- same namespace and key, whether or not there was an entry before, if the metadata is read as
    -- `m`. The user that the calls name plays no part.
    pub get-put :
        metadata_text (loads raw) ≡ ok m
        → (Knowledge.get E loads caller ns k after).0 ≡ ok (some entry)
    unfolding Knowledge.get
    get-put loaded =
        let (r, is_first, stores) =
          found u ns k content raw (E.now w.reads) (E.rows w.db "knowledge") sorted (
            subst
              (λ rs. Perm sorted (keep (satisfies (wanted u ns k content raw (E.now w.reads))) rs))
              put-rows (E.sort-perm none _)) in
        ap (λ x. x.0)
          (bind-ok (entry_of E loads) (KnowledgeRepo.get E ns k) after
            (ap (λ x. x.0) get-rows ∙ ap (λ o. ok o) is_first))
        ∙ entry-Stores raw r _ loaded stores
