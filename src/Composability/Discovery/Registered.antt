-- ===== src/Composability/Discovery/Registered.antt =====
-- An agent that is registered is discovered.
use mathlib.Core.List.{Perm}
use mathlib.Core.Path.{subst}
use Prim.Native.String
use agent_sdk.Prelude.{
  if◌then◌else◌, false, ℕ, String, ◌≡◌, refl, sym, ap, ◌∙◌, true, none, some, List, [], ◌∷◌, str_eq,
}
use agent_sdk.Prelude.Dict
use agent_sdk.Prelude.Dict.{get, keys, values, get-update-none, get-update-put}
use agent_sdk.Types.{Result, ok, err}
use agent_sdk.Db.Sql
use agent_sdk.Db.Sql.{
  Value, null, int, str, Row, Cond, eq, Statement, bind, pair_up, satisfies, holds, sql_eq, keep,
  limit, project, same_key, same_value, upserted, written,
}
use agent_sdk.Db.Backend.{Backend}
use agent_sdk.Db.Exec.{World, Exec, pure, ◌>>=◌, execute, fetch_one, first, bind-ok, continue, now}
use agent_sdk.Db.Exec.Rows.{execute-rows, fetch_one-rows}
use agent_sdk.Db.Keys.{Value-set, holds-same_value, get_of_same_value, same_value_of_get, and-left}
use agent_sdk.Db.Keys.Upserts.{first-upserted}
use agent_sdk.Db.Repositories.SessionRepo.{or_else}
use agent_sdk.Db.Repositories.AgentRegistryRepo
use agent_sdk.Db.Repositories.AgentRegistryRepo.{agent_row, updated_columns}
use agent_sdk.Core.Session.{lift, text_at}
use agent_sdk.Isolation.Reads.{project_all}
use agent_sdk.Persistence.Memory.{text_or-some}
use agent_sdk.Composability.Discovery.{
  AgentDescriptor, LoadedTools, names, tools_of, row_to_descriptor, register, descriptor_of,
  discover,
}

-- The row has these texts.
pub record Stores (d : AgentDescriptor) (tools : String) (r : Row) : Type 0 where
  pub has_name : get "name" r ≡ some (str d.name)
  pub has_description : get "description" r ≡ some (str d.description)
  pub has_base_url : get "base_url" r ≡ some (str d.base_url)
  pub has_tools : get "tools" r ≡ some (str tools)
  pub has_version : get "version" r ≡ some (str d.version)
  pub has_health_url : get "health_url" r ≡ some (str d.health_url)

text_at-some : (k : String) (r : Row) (s : String) → get k r ≡ some (str s) → text_at k r ≡ ok s
unfolding text_at
text_at-some k r s h = rw (text_at, h) refl

module _ (d : AgentDescriptor) (tools time : String) where
  abbrev row : Row
  row = agent_row d.name d.description d.base_url tools d.version d.health_url time

  abbrev wanted : List (Cond × Value)
  wanted = (eq "name", str d.name) ∷ []

  Stores-prop : (r : Row) → IsProp (Stores d tools r)
  Stores-prop r = hlevel (Value-set)

  wanted-same_key : (r : Row) → satisfies wanted r ≡ same_key ("name" ∷ []) row r
  unfolding satisfies same_key get str_eq
  wanted-same_key r = rw (holds-same_value "name" row r d.name refl) refl

  name-of : (r : Row) → same_key ("name" ∷ []) row r ≡ true → get "name" r ≡ some (str d.name)
  unfolding same_key get str_eq
  name-of r h = get_of_same_value "name" row r d.name refl (and-left _ true h)

  same_key-of : (r : Row) → get "name" r ≡ some (str d.name) → same_key ("name" ∷ []) row r ≡ true
  unfolding same_key get str_eq
  same_key-of r h = rw (same_value_of_get "name" row r d.name refl h) refl

  abbrev changed : Row → Row
  changed r = Dict.update r (project updated_columns row)

  changed-name :
      (r : Row) → get "name" r ≡ some (str d.name) → get "name" (changed r) ≡ some (str d.name)
  unfolding project get str_eq
  changed-name r h = get-update-none "name" r (project updated_columns row) refl ∙ h

  fresh : Stores d tools row
  unfolding get str_eq
  fresh = record {
    has_name = refl;
    has_description = refl;
    has_base_url = refl;
    has_tools = refl;
    has_version = refl;
    has_health_url = refl;
  }

  updated : (r : Row) → same_key ("name" ∷ []) row r ≡ true → Stores d tools (changed r)
  unfolding project get str_eq Dict.update
  updated r h = record {
    has_name = changed-name r (name-of r h);
    has_description =
        get-update-put "description" (str d.description) (Dict.update r (project [] row))
          (project ("base_url" ∷ "tools" ∷ "version" ∷ "health_url" ∷ "last_seen_at" ∷ []) row)
          refl;
    has_base_url =
        get-update-put "base_url" (str d.base_url)
          (Dict.update r (project ("description" ∷ []) row))
          (project ("tools" ∷ "version" ∷ "health_url" ∷ "last_seen_at" ∷ []) row) refl;
    has_tools =
        get-update-put "tools" (str tools)
          (Dict.update r (project ("description" ∷ "base_url" ∷ []) row))
          (project ("version" ∷ "health_url" ∷ "last_seen_at" ∷ []) row) refl;
    has_version =
        get-update-put "version" (str d.version)
          (Dict.update r (project ("description" ∷ "base_url" ∷ "tools" ∷ []) row))
          (project ("health_url" ∷ "last_seen_at" ∷ []) row) refl;
    has_health_url =
        get-update-put "health_url" (str d.health_url)
          (Dict.update r (project ("description" ∷ "base_url" ∷ "tools" ∷ "version" ∷ []) row))
          (project ("last_seen_at" ∷ []) row) refl;
  }

  found :
      (rs ys : List Row)
      → Perm ys (keep (satisfies wanted) (upserted row ("name" ∷ []) updated_columns rs))
      → (r : Row) × (first ys ≡ some r) × Stores d tools r
  unfolding get str_eq
  found =
      first-upserted (Stores d tools) Stores-prop row ("name" ∷ []) updated_columns
        (satisfies wanted) wanted-same_key (same_key-of row refl)
        (λ r h. same_key-of (changed r) (changed-name r (name-of r h))) fresh updated

module _ {Db : Type 0} (E : Backend Db) (rstrip : (text chars : String) → String)
    (dumps : List String → String) (loads : String → LoadedTools)
    (http_get : String → Exec Db ℕ) where
  -- A row with these texts is read as the descriptor.
  descriptor-Stores :
      (d : AgentDescriptor) (tools : String) (r : Row) (w : World Db)
      → tools_of (loads tools) ≡ ok d.tools
      → Stores d tools r
      → (descriptor_of E rstrip dumps loads http_get (some r) w).0 ≡ ok (some d)
  unfolding row_to_descriptor lift ◌>>=◌ pure
  descriptor-Stores d tools r w loaded h =
      rw
        (
          text_or-some "[]" "tools" r tools h.has_tools,
          loaded,
          text_at-some "name" r d.name h.has_name,
          text_or-some "" "description" r d.description h.has_description,
          text_or-some "" "base_url" r d.base_url h.has_base_url,
          text_or-some "0.1.0" "version" r d.version h.has_version,
          text_or-some "" "health_url" r d.health_url h.has_health_url,
        )
        refl

  module _ (d : AgentDescriptor) (w : World Db)
      (registered : (register E rstrip dumps loads http_get d w).0 ≡ ok tt) where
    -- The descriptor with the address of its health check: the one that it names, or `/health` of
    -- its base.
    abbrev pub completed : AgentDescriptor
    completed = record d {
      health_url =
          if str_eq d.health_url ""
          then String.◌++◌ (rstrip d.base_url "/") "/health"
          else d.health_url;
    }

    abbrev tools : String
    tools = or_else (some (dumps d.tools)) "[]"

    abbrev new_row : Row
    new_row = row completed tools (E.now w.reads)

    abbrev read : World Db
    read = (now E w).1

    abbrev statement : Statement
    statement = Statement.upsert "agent_registry" (keys new_row) ("name" ∷ []) updated_columns

    abbrev after : World Db
    after = (register E rstrip dumps loads http_get d w).1

    -- `register` fetches the row that it has written, and does not use it.
    then-fetch :
        (r : Result (Unit {0})) (v : World Db)
        → (let x = continue r (λ _. AgentRegistryRepo.get_by_name E rstrip d.name) v in
            continue x.0 (λ _. pure tt) x.1)
          ≡ (r, v)
    unfolding AgentRegistryRepo.get_by_name fetch_one pure
    then-fetch (ok tt) v = refl
    then-fetch (err e) v = refl

    ran : register E rstrip dumps loads http_get d w ≡ execute E statement (values new_row) read
    unfolding register AgentRegistryRepo.register now ◌>>=◌ or_else str_eq execute
    ran =
        then-fetch (execute E statement (values new_row) read).0
          (execute E statement (values new_row) read).1

    register-rows :
        E.rows after.db "agent_registry"
        ≡ upserted new_row ("name" ∷ []) updated_columns (E.rows w.db "agent_registry")
    unfolding written bind pair_up str_eq now
    register-rows =
        ap (λ x. E.rows x.1.db "agent_registry") ran
        ∙ execute-rows E statement (values new_row) read
            (Sql.Bound.upsert "agent_registry" new_row ("name" ∷ []) updated_columns) refl
            (sym (ap (λ x. x.0) ran) ∙ registered) "agent_registry"

    abbrev by_name : List Row → List Row
    by_name = keep (satisfies (wanted completed tools (E.now w.reads)))

    abbrev sorted : List Row
    sorted = E.sort none (by_name (E.rows after.db "agent_registry"))

    get-rows : AgentRegistryRepo.get_by_name E rstrip d.name after ≡ (ok (first sorted), after)
    unfolding AgentRegistryRepo.get_by_name bind pair_up limit
    get-rows =
        fetch_one-rows E _ _ after "agent_registry" ("*" ∷ [])
          (wanted completed tools (E.now w.reads)) none none refl
        ∙ ap (λ (rs : List Row). (ok (first rs), after)) (project_all sorted)

    -- An agent that is registered, whether or not its name is new, is discovered under its name with
    -- all that it was registered with. A health address that is empty has become `/health` behind
    -- the base address. That json.loads reads back the names of the tools, and that json.dumps of
    -- them is not empty, are hypotheses.
    pub discover-register :
        loads (dumps d.tools) ≡ names d.tools
        → str_eq (dumps d.tools) "" ≡ false
        → (discover E rstrip dumps loads http_get d.name after).0 ≡ ok (some completed)
    unfolding discover or_else
    discover-register reads_back not_empty =
        let (r, is_first, stores) =
          found completed tools (E.now w.reads) (E.rows w.db "agent_registry") sorted
            (subst (λ rs. Perm sorted (by_name rs)) register-rows (E.sort-perm none _)) in
        ap (λ x. x.0)
          (bind-ok (descriptor_of E rstrip dumps loads http_get)
            (AgentRegistryRepo.get_by_name E rstrip d.name) after
            (ap (λ x. x.0) get-rows ∙ ap (λ o. ok o) is_first))
        ∙ descriptor-Stores completed tools r _ loaded stores
      where
        loaded : tools_of (loads tools) ≡ ok d.tools
        loaded = rw (not_empty, reads_back) refl
