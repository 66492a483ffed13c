-- ===== src/Governance/Audit/Owned.antt =====
-- Whose entries a query of the audit log returns.
use mathlib.Core.List.{Mem, mem-cons, mem-cons_of_mem}
use mathlib.Core.List.Perm
use mathlib.Core.Logic.Or
use mathlib.Core.Option.{some-injective, none-ne-some}
use agent_sdk.Prelude.{
  ℕ, String, ◌≡◌, refl, sym, ap, ◌∙◌, Bool, true, Option, none, some, List, [], ◌∷◌, ◌++◌, map,
  arith, All,
}
use agent_sdk.Prelude.{str_eq, if◌then◌else◌, Bool-cases, inl, inr}
use agent_sdk.Prelude.Dict.{get}
use agent_sdk.Types.{Result, ok}
use agent_sdk.Db.Sql
use agent_sdk.Db.Sql.{
  Value, int, str, Row, Cond, eq, ge, desc, Statement, bind, pair_up, satisfies, keep, limit,
  project, holds, sql_eq,
}
use agent_sdk.Db.Backend.{Backend}
use agent_sdk.Db.Keys.{and-left, sql_eq-sym, sql_eq-str}
use agent_sdk.Db.Exec.{World, pure, fetch_all, bind-ok}
use agent_sdk.Db.Exec.Ensures.{Ensures, Ensures-pure, Ensures-bind, Ensures-then}
use agent_sdk.Db.Repositories.SessionRepo.{by}
use agent_sdk.Db.Repositories.AuditRepo
use agent_sdk.Db.Repositories.AuditRepo.{filter, asked}
use agent_sdk.Isolation.Filter.Bound.{limit_value}
use agent_sdk.Isolation.Scope.{get_user_scope}
use agent_sdk.Isolation.Reads.{project_all, mem-keep, mem_of_mem-limit}
use agent_sdk.Core.Session.{lift, text_at}
use agent_sdk.Persistence.Memory.{optional_text}
use agent_sdk.Governance.Audit.{
  AuditEntry, LoadedDetails, details_at, row_to_entry, to_entries, query,
}

pair_up-pairs :
    (ws : List (Cond × Value)) (rest : List Value)
    → pair_up (map (λ p. p.0) ws) (map (λ p. p.1) ws ++ rest) ≡ some (ws, rest)
unfolding pair_up
pair_up-pairs [] rest = refl
pair_up-pairs ((c, v) ∷ ws) rest = rw (pair_up-pairs ws rest) refl

abbrev conditions : String → Option String → Option String → List (Cond × Value)
conditions uid action since =
    (eq "user_id", str uid) ∷ (filter eq "action" action ++ filter ge "timestamp" since)

owner-satisfies :
    (uid : String) (action since : Option String) (r : Row)
    → satisfies (conditions uid action since) r ≡ true
    → get "user_id" r ≡ some (str uid)
unfolding satisfies holds
owner-satisfies uid action since r h = by_value (get "user_id" r) (and-left _ _ h)
  where
    by_value :
        (o : Option Value)
        → (elim o [ none ↦ Bool.false | some w ↦ sql_eq w (str uid) ]) ≡ true
        → o ≡ some (str uid)
    by_value none k = cc
    by_value (some w) k = ap some (sql_eq-str uid w (sql_eq-sym (str uid) w ∙ k))

module _ {Db : Type 0} where
  Ensures-lift :
      {A : Type 0} (P : A → Type 0) (r : Result A)
      → ((a : A) → r ≡ ok a → P a)
      → Ensures {Db = Db} P (lift r)
  unfolding lift
  Ensures-lift P r h = record { at = λ w a e. h a e }

-- Whose entries a call asks for, in a scope.
abbrev pub reader : Option String → Option String → Option String
reader none scope = scope
reader (some v) scope = if str_eq v "" then scope else some v

module _ {Db : Type 0} (E : Backend Db) (loads : String → LoadedDetails) (uid : String) where
  abbrev Owned : AuditEntry → Type 0
  Owned e = e.user_id ≡ uid

  row_to_entry-Owned :
      (r : Row) → get "user_id" r ≡ some (str uid) → Ensures Owned (row_to_entry E loads r)
  unfolding row_to_entry text_at
  row_to_entry-Owned r has = Ensures-then Owned (lift (details_at E loads r)) _ (λ details.
      Ensures-then Owned (lift (text_at "id" r)) _ (λ id.
        Ensures-then Owned (lift (text_at "timestamp" r)) _ (λ timestamp.
          Ensures-bind Owned (lift (text_at "user_id" r)) _
            (Ensures-lift (λ s. s ≡ uid) (text_at "user_id" r)
              (λ s e. owner s (rw (text_at, has) at e)))
            (λ user_id owned.
              Ensures-then Owned (lift (optional_text "session_id" r)) _ (λ session_id.
                Ensures-then Owned (lift (text_at "action" r)) _
                  (λ action. Ensures-pure _ owned))))))
    where
      owner : (s : String) → ok uid ≡ ok s → s ≡ uid
      owner s e = cc

  to_entries-Owned :
      (rs : List Row)
      → ((r : Row) → Mem r rs → get "user_id" r ≡ some (str uid))
      → Ensures (All Owned) (to_entries E loads rs)
  unfolding to_entries
  to_entries-Owned [] h = Ensures-pure [] tt
  to_entries-Owned (r ∷ rs) h =
      Ensures-bind (All Owned) (row_to_entry E loads r) _
        (row_to_entry-Owned r (h r (mem-cons.1 (Or.inl refl))))
        (λ e owned.
          Ensures-bind (All Owned) (to_entries E loads rs) _
            (to_entries-Owned rs (λ q m. h q (mem-cons_of_mem r m)))
            (λ es all. Ensures-pure (e ∷ es) (owned, all)))

  module _ (user_id action since : Option String) (n : ℕ) where
    abbrev found : World Db → List Row
    found w = limit (limit_value (some n)) (
        E.sort (by "timestamp" desc)
          (keep (satisfies (conditions uid action since)) (E.rows w.db "audit_log")))

    found-owner : (w : World Db) (r : Row) → Mem r (found w) → get "user_id" r ≡ some (str uid)
    found-owner w r m =
        owner-satisfies uid action since r
          (mem-keep (satisfies (conditions uid action since)) r (E.rows w.db "audit_log") (
            (Perm.mem_iff (E.sort-perm (by "timestamp" desc) _)).0
              (mem_of_mem-limit (some n) r _ m))).0

    asked-same : (w : World Db) → (asked E user_id w).1 ≡ w
    unfolding asked get_user_scope pure
    asked-same w = ground arith

    abbrev statement : Statement
    statement =
        Statement.select "audit_log" ("*" ∷ []) (map (λ p. p.0) (conditions uid action since))
          (by "timestamp" desc) true

    abbrev parameters : List Value
    parameters = map (λ p. p.1) (conditions uid action since) ++ int n ∷ []

    bind-statement :
        bind statement parameters
        ≡ some (
            Sql.Bound.select "audit_log"
              ("*" ∷ [])
              (conditions uid action since)
              (by "timestamp" desc)
              (limit_value (some n)))
    unfolding bind
    bind-statement = rw (pair_up-pairs (conditions uid action since) (int n ∷ []), bind)

    query-rows :
        (w : World Db)
        → (asked E user_id w).0 ≡ ok uid
        → AuditRepo.query E user_id action since n w ≡ (ok (found w), w)
    unfolding AuditRepo.query fetch_all
    query-rows w named =
        bind-ok _ (asked E user_id) w named
        ∙ ap (fetch_all E statement parameters) (asked-same w)
        ∙ ap (λ (rs : List Row). (ok rs, w))
            (E.fetch_all-select statement parameters w.db "audit_log" ("*" ∷ [])
                (conditions uid action since) (by "timestamp" desc) (limit_value (some n))
                bind-statement
              ∙ project_all (found w))

    asked-reader :
        (w : World Db) → reader user_id w.scope ≡ some uid → (asked E user_id w).0 ≡ ok uid
    unfolding asked get_user_scope pure
    asked-reader w h = by_user user_id w.scope h
      where
        by_user :
            (o scope : Option String)
            → reader o scope ≡ some uid
            → (asked E o (record w { scope = scope })).0 ≡ ok uid
        by_user none none h = cc
        by_user none (some v) h = ap ok (some-injective v uid h)
        by_user (some v) none h = elim (Bool-cases (str_eq v "")) [
          | inl e ↦ absurd (none-ne-some uid (rw e at h))
          | inr e ↦ rw e (ap ok (some-injective v uid (rw e at h)))
        ]
        by_user (some v) (some s) h = elim (Bool-cases (str_eq v "")) [
          | inl e ↦ rw e (ap ok (some-injective s uid (rw e at h)))
          | inr e ↦ rw e (ap ok (some-injective v uid (rw e at h)))
        ]

    -- Every entry that a query of the audit log returns belongs to the user that the call names, or
    -- to the user of the scope if it names none or an empty name.
    pub query-Owned :
        (w : World Db) (es : List AuditEntry)
        → reader user_id w.scope ≡ some uid
        → (query E loads user_id action since n w).0 ≡ ok es
        → All Owned es
    unfolding query
    query-Owned w es named returned =
        let read = asked-reader w named in
        let asks = AuditRepo.query E user_id action since n in
        (to_entries-Owned (found w) (found-owner w)).at (asks w).1 es (
          sym (
            ap (λ x. x.0) (bind-ok (to_entries E loads) asks w (ap (λ x. x.0) (query-rows w read))))
          ∙ returned)
