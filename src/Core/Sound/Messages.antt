-- ===== src/Core/Sound/Messages.antt =====
-- The history of a session, each operation of which returns.
use mathlib.Core.Path.{subst}
use mathlib.Core.Logic.Or
use mathlib.Core.List.Perm
use mathlib.Core.List.{Mem, mem-cons, mem-cons_of_mem}
use agent_sdk.Prelude.{
  ℕ, ◌+◌, String, ◌≡◌, refl, sym, ap, ◌∙◌, true, none, some, List, [], ◌∷◌, str_eq, All,
}
use agent_sdk.Prelude.Dict.{get, keys, values}
use agent_sdk.Types.{MessageRole, ok}
use agent_sdk.Db.Sql
use agent_sdk.Db.Sql.{
  Value, str, int, Row, Cond, eq, asc, Statement, bind, pair_up, keep, satisfies, limit, project,
}
use agent_sdk.Db.Backend.{Backend}
use agent_sdk.Db.Exec.{pure, fetch_one, fetch_all, ◌>>=◌}
use agent_sdk.Db.Exec.Returns.{Returns, Returns-pure, Returns-bind}
use agent_sdk.Db.Repositories.SessionRepo.{by}
use agent_sdk.Isolation.Scope.{get_user_scope}
use agent_sdk.Isolation.Filter.Bound.{pair_up-keys_end}
use agent_sdk.Isolation.Reads.{mem-keep, mem_of_mem-limit, project_all}
use agent_sdk.Persistence.History
use agent_sdk.Persistence.History.{
  Json, role_value, parse_role, message_row, row_to_message, to_messages,
}
use agent_sdk.Persistence.History.RoundTrip.{parse_role-value}
use agent_sdk.Core.Message.{Message}
use agent_sdk.Core.Sound.{is_sound, is_ok, AllSound, sound-role}
use agent_sdk.Core.Sound.Writes.{Accepts, Sound, returns-execute, sound_after, written-insert}
use agent_sdk.Core.Sound.Reads.{returns-uuid4, returns-now, sound-Mem}

pub sound-message_row :
    (J : Json) (id session_id user_id : String) (n : ℕ) (m : Message)
    → is_sound "messages" (message_row J id session_id user_id n m) ≡ true
unfolding is_sound message_row get str_eq
sound-message_row J id session_id user_id n m = ap is_ok (parse_role-value m.role)

bind-message_row :
    (row : Row)
    → bind (Statement.insert "messages" (keys row)) (values row)
      ≡ some (Sql.Bound.insert "messages" row)
unfolding bind
bind-message_row row = rw (pair_up-keys_end row, bind)

bind-history :
    (session_id : String) (n : ℕ)
    → bind
        (Statement.select "messages" ("*" ∷ []) (eq "session_id" ∷ []) (by "ordinal" asc) true)
        (str session_id ∷ int n ∷ [])
      ≡ some (
          Sql.Bound.select "messages"
            ("*" ∷ [])
            ((eq "session_id", str session_id) ∷ [])
            (by "ordinal" asc)
            (some (int n)))
unfolding bind pair_up
bind-history session_id n = refl

module _ {Db : Type 0} (J : Json) (E : Backend Db) (u : String) where
  returns-scope : Returns (Sound E u) get_user_scope (λ v w. Sound E u w)
  unfolding get_user_scope
  returns-scope = record { at = λ w v. rw (v.scoped, get_user_scope) (u, refl, v) }

  returns-count :
      (session_id : String) → Returns (Sound E u) (History.count J E session_id) (λ _. Sound E u)
  unfolding History.count fetch_one ◌>>=◌ pure
  returns-count session_id = record { at = λ w v. (_, refl, v) }

  pub returns-append :
      Accepts E
      → (session_id : String) (m : Message)
      → Returns (Sound E u) (History.append J E session_id m) (λ _. Sound E u)
  unfolding History.append
  returns-append acc session_id m = Returns-bind _ _ returns-scope λ user_id.
      Returns-bind _ _ (returns-count session_id) λ n. Returns-bind _ _ (returns-uuid4 E u) λ id.
        let row = message_row J id session_id user_id (n + 1) m in
        returns-execute E u acc _ _ _ (bind-message_row row) (λ w e v h. record {
          tables = sound_after E u _ _ _ w.db e (bind-message_row row) h (
              written-insert "messages" row (E.rows w.db) v.tables
                (sound-message_row J id session_id user_id (n + 1) m));
          scoped = v.scoped;
        })

  -- Rows with a role.
  abbrev Readable : List Row → Type 0
  Readable rs = All (λ r. is_sound "messages" r ≡ true) rs

  parsed_role :
      (r : Row) (time : String) (role : MessageRole)
      → parse_role (get "role" r) ≡ ok role
      → (m : Message) × (row_to_message J r time ≡ ok m)
  unfolding row_to_message
  parsed_role r time role e = rw (row_to_message, e) (_, refl)

  returns-to_messages :
      (rs : List Row) → Readable rs → Returns (Sound E u) (to_messages J E rs) (λ _. Sound E u)
  unfolding to_messages
  returns-to_messages [] h = Returns-pure [] (λ w v. v)
  returns-to_messages (r ∷ rs) (s, h) = Returns-bind _ _ (returns-now E u) λ time.
      Returns-bind _ _
        (record {
          at = λ w v.
              let (role, e) = sound-role r s in
              let (m, e') = parsed_role r time role e in (m, e', v);
        })
        λ m. Returns-bind _ _ (returns-to_messages rs h) λ ms. Returns-pure _ (λ w v. v)

  all-Readable :
      (rs : List Row) → ((r : Row) → Mem r rs → is_sound "messages" r ≡ true) → Readable rs
  all-Readable [] h = tt
  all-Readable (r ∷ rs) h =
      (h r (mem-cons.1 (Or.inl refl)), all-Readable rs (λ q m. h q (mem-cons_of_mem r m)))

  fetched-Readable :
      (session_id : String) (n : ℕ) (d : Db)
      → AllSound (E.rows d)
      → Readable (
          E.fetch_all
            (Statement.select "messages" ("*" ∷ []) (eq "session_id" ∷ []) (by "ordinal" asc) true)
            (str session_id ∷ int n ∷ [])
            d)
  fetched-Readable session_id n d sound =
      let rows = limit (some (int n)) (
        E.sort (by "ordinal" asc)
          (keep (satisfies ((eq "session_id", str session_id) ∷ [])) (E.rows d "messages"))) in
      subst Readable
        (sym (
          E.fetch_all-select _ _ d "messages" ("*" ∷ []) _ (by "ordinal" asc) (some (int n))
            (bind-history session_id n)
          ∙ project_all rows))
        (all-Readable rows λ r m.
          sound-Mem "messages" (E.rows d "messages") r (sound "messages")
            (mem-keep _ r _ (
              (Perm.mem_iff (E.sort-perm (by "ordinal" asc) _)).0
                (mem_of_mem-limit (some n) r _ m))).1)

  pub returns-history :
      (session_id : String) (n : ℕ)
      → Returns (Sound E u) (History.get_messages J E session_id n none) (λ _. Sound E u)
  unfolding History.get_messages fetch_all
  returns-history session_id n =
      Returns-bind {Mid = λ rs w. Sound E u w × Readable rs} _ _
        (record { at = λ w v. (_, refl, (v, fetched-Readable session_id n w.db v.tables)) })
        λ rs. record { at = λ w (v, h). (returns-to_messages rs h).at w v }
