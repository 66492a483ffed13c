-- ===== src/Durability/Checkpoint/Found.antt =====
-- Where a loaded step comes from.
use mathlib.Core.Logic.Or
use mathlib.Core.List.{Mem, mem-cons, mem-cons_of_mem}
use agent_sdk.Prelude.{
  ℕ, str_eq, ◌==◌, String, ◌≡◌, refl, sym, arith, true, Option, none, some, List, [], ◌∷◌,
  Bool-cases, Option-cases, inl, inr, ◌⊎◌, ap, ◌∙◌,
}
use agent_sdk.Prelude.Dict.{get}
use agent_sdk.Types.{Error, checkpoint_error, Result, ok, err}
use agent_sdk.Db.Sql.{Row, Value, str, asc}
use agent_sdk.Db.Backend.{Backend}
use agent_sdk.Db.Exec.{World, Exec, continue, ◌>>=◌}
use agent_sdk.Db.Repositories.SessionRepo.{by}
use agent_sdk.Db.Repositories.StepRepo
use agent_sdk.Isolation.Filter.Owned.{owned}
use agent_sdk.Isolation.Reads.{selected, fetch_all-selected, mem-selected}
use agent_sdk.Core.Message.{Step}
use agent_sdk.Core.Session.{lift, number_at}
use agent_sdk.Durability.Checkpoint.{Codec, rewrap, blob_of, restored, pick, load}

Result-cases : {A : Type 0} (r : Result A) → ((a : A) × (r ≡ ok a)) ⊎ ((e : Error) × (r ≡ err e))
Result-cases (ok a) = inl (a, refl)
Result-cases (err e) = inr (e, refl)

module _ (C : Codec) (n : ℕ) where
  -- The row has the number, and its checkpoint decodes to the step.
  pub record Holds (r : Row) (s : Step) : Type 0 where
    pub blob : String
    pub numbered : number_at "step_number" r ≡ ok n
    pub stored : blob_of r ≡ some blob
    pub decodes : C.deserialize blob ≡ ok s

  restored-decodes :
      (blob : String) (s : Step) → restored C (some blob) ≡ ok (some s) → C.deserialize blob ≡ ok s
  restored-decodes blob s h = decoded (C.deserialize blob) h
    where
      decoded :
          (d : Result Step)
          → (elim d [ ok t ↦ ok (some t) | err e ↦ err e ]) ≡ ok (some s)
          → d ≡ ok s
      decoded (ok t) h = let same : t ≡ s = cc in ap ok same
      decoded (err e) h = cc

  pick-Holds :
      (rs : List Row) (s : Step) → pick C n rs ≡ ok (some s) → (r : Row) × Mem r rs × Holds r s
  unfolding pick
  pick-Holds [] s h = cc
  pick-Holds (r ∷ rs) s h = elim (Result-cases (number_at "step_number" r)) [
    | inr (x, e) ↦ let no = rw (pick, e) at h in cc
    | inl (k, e) ↦ elim (Bool-cases (k == n)) [
      | inr ne ↦
          let (q, there, holds) = pick-Holds rs s (rw (pick, e, ne) at h) in
          (q, mem-cons_of_mem r there, holds)
      | inl same ↦ elim (Option-cases (blob_of r)) [
        | inl empty ↦
            let (q, there, holds) = pick-Holds rs s (rw (pick, e, same, empty) at h) in
            (q, mem-cons_of_mem r there, holds)
        | inr (blob, full) ↦
            let number : k ≡ n = ground arith in
            (
              r,
              mem-cons.1 (Or.inl refl),
              record {
                blob = blob;
                numbered = e ∙ ap ok number;
                stored = full;
                decodes = restored-decodes blob s (rw (pick, e, same, full) at h);
              },
            )
      ]
    ]
  ]

module _ {Db : Type 0} (C : Codec) (E : Backend Db) (u session_id : String) (n : ℕ) where
  abbrev of_session : Option (List (String × Value))
  of_session = some (("session_id", str session_id) ∷ [])

  rewrapped-ok :
      (e : Error) (r : Result (Option Step)) (s : Step)
      → (elim r [ ok a ↦ ok a | err _ ↦ err e ]) ≡ ok (some s)
      → r ≡ ok (some s)
  rewrapped-ok e (ok a) s h = h
  rewrapped-ok e (err x) s h = cc

  after_rows :
      (m : Exec Db (List Row)) (rows : List Row) (e : Error) (w : World Db)
      → m w ≡ (ok rows, w)
      → (rewrap e (m >>= λ rs. lift (pick C n rs)) w).0
        ≡ (elim (pick C n rows) [ ok a ↦ ok a | err _ ↦ err e ])
  unfolding rewrap ◌>>=◌ lift
  after_rows m rows e w h =
      ap
        (λ (x : Result (List Row) × World Db).
          (rewrap e (λ v. continue x.0 (λ rs. lift (pick C n rs)) x.1) w).0)
        h

  -- A step that `load` returns in the scope of a user is decoded from the checkpoint of a row of
  -- the steps that belongs to that user and has the number asked for.
  pub load-Holds :
      (w : World Db) (s : Step)
      → w.scope ≡ some u
      → (load C E session_id n w).0 ≡ ok (some s)
      → (r : Row) × Mem r (E.rows w.db "steps") × (owned u r ≡ true) × Holds C n r s
  unfolding load StepRepo.get_by_session get str_eq
  load-Holds w s h found =
      let rows : List Row = selected E u "steps" of_session (by "step_number" asc) none w.db in
      let (r, there, holds) = pick-Holds C n rows s (
        rewrapped-ok checkpoint_error (pick C n rows) s (
          sym (
            after_rows (StepRepo.get_by_session E session_id) rows checkpoint_error w
              (fetch_all-selected E u "steps" of_session (by "step_number" asc) none w h))
          ∙ found)) in
      let (own, met, row) =
        mem-selected E u "steps" of_session (by "step_number" asc) none w.db r refl there in
      (r, row, own, holds)
