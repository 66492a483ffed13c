-- ===== src/Governance/Approval/Waiting.antt =====
-- How waiting for a resolution ends, by the rows that the polls find.
use agent_sdk.Prelude.{
  ℕ, zero, suc, ◌<◌, String, ◌≡◌, ◌⊎◌, inl, inr, refl, ap, ◌∙◌, Option, none, some, arith, str_eq,
}
use agent_sdk.Prelude.Dict.{get}
use agent_sdk.Types.{
  ApprovalStatus, ExecutionPolicy, approval_timeout, approval_denied, Result, ok, err,
}
use agent_sdk.Db.Sql.{int, str, Row}
use agent_sdk.Db.Backend.{Backend}
use agent_sdk.Db.Exec.{World, Exec, pure, raise, now, continue, ◌>>=◌}
use agent_sdk.Db.Repositories.ApprovalRepo
use agent_sdk.Core.Session.{lift, text_at, number_at}
use agent_sdk.Persistence.History.{optional}
use agent_sdk.Governance.Approval.{
  ApprovalRequest, parse_status, from_row, settled, inspect, read, poll, or_wait, wait,
  wait_for_resolution,
}

-- What a poll decides: nothing yet, or how the wait ends.
abbrev verdict : Result (Option ApprovalRequest) → Option (Result ApprovalRequest)
verdict (ok none) = none
verdict (ok (some r)) = some (ok r)
verdict (err e) = some (err e)

text_at-some : (k : String) (r : Row) (s : String) → get k r ≡ some (str s) → text_at k r ≡ ok s
unfolding text_at
text_at-some k r s h = rw (text_at, h) refl

number_at-some : (k : String) (r : Row) (n : ℕ) → get k r ≡ some (int n) → number_at k r ≡ ok n
unfolding number_at
number_at-some k r n h = rw (number_at, h) refl

-- The row has a status that ends the wait with a request.
abbrev pub Ends : Row → ApprovalStatus → Type 0
Ends r ApprovalStatus.approved = get "status" r ≡ some (str "approved")
Ends r ApprovalStatus.expired = get "status" r ≡ some (str "expired")
Ends r ApprovalStatus.denied = ⊥
Ends r ApprovalStatus.pending = ⊥

-- The row of a request of these.
pub record Shows (id session_id user_id : String) (step_number : ℕ) (r : Row) : Type 0 where
  pub has_id : get "id" r ≡ some (str id)
  pub has_session_id : get "session_id" r ≡ some (str session_id)
  pub has_user_id : get "user_id" r ≡ some (str user_id)
  pub has_step_number : get "step_number" r ≡ some (int step_number)

module _ {Db : Type 0} (E : Backend Db) (request_id : String)
    (sleeping : ℕ → World Db → World Db) where
  -- The world after the first `k` sleeps from sleep number `elapsed` on.
  unfoldable pub slept : (k elapsed : ℕ) → World Db → World Db
  slept zero elapsed w = w
  slept (suc k) elapsed w = slept k (suc elapsed) (sleeping elapsed w)

  -- The scope's user has no such request, or a pending one.
  unfoldable pub Waits : World Db → Type 0
  Waits w =
      (ApprovalRepo.get_by_id E request_id w ≡ (ok none, w))
      ⊎ ((r : Row) × (ApprovalRepo.get_by_id E request_id w ≡ (ok (some r), w))
          × (get "status" r ≡ some (str "pending")))

  poll-read :
      (row : Option Row) (w : World Db)
      → ApprovalRepo.get_by_id E request_id w ≡ (ok row, w)
      → poll E request_id w ≡ read E row w
  unfolding poll ◌>>=◌
  poll-read row w h = ap (λ x. continue x.0 (read E) x.1) h

  poll-Waits : (w : World Db) → Waits w → poll E request_id w ≡ (ok none, w)
  unfolding Waits read inspect ◌>>=◌ pure lift str_eq
  poll-Waits w (inl h) = poll-read none w h
  poll-Waits w (inr (r, h, p)) =
      poll-read (some r) w h ∙ rw (text_at-some "status" r "pending" p) refl

  poll-denied :
      (r : Row) (w : World Db)
      → ApprovalRepo.get_by_id E request_id w ≡ (ok (some r), w)
      → get "status" r ≡ some (str "denied")
      → (poll E request_id w).0 ≡ err approval_denied
  unfolding read inspect settled ◌>>=◌ raise lift parse_status str_eq
  poll-denied r w h p =
      ap (λ x. x.0) (poll-read (some r) w h) ∙ rw (text_at-some "status" r "denied" p) refl

  module _ (id session_id user_id : String) (step_number : ℕ) (r : Row) (w : World Db)
      (shows : Shows id session_id user_id step_number r) where
    -- The request of the row.
    abbrev pub resolved : ApprovalStatus → ApprovalRequest
    resolved status = record {
      id = id;
      session_id = session_id;
      user_id = user_id;
      step_number = step_number;
      tool_call = none;
      required_policy = ExecutionPolicy.human_approval;
      status = status;
      requested_at = E.now w.reads;
      resolved_by = optional (get "resolved_by" r);
      reason = optional (get "reason" r);
    }

    read-Ends :
        (status : ApprovalStatus)
        → Ends r status
        → (read E (some r) w).0 ≡ ok (some (resolved status))
    unfolding read inspect settled from_row ◌>>=◌ pure lift now parse_status str_eq
    read-Ends ApprovalStatus.approved e =
        rw
          (
            text_at-some "status" r "approved" e,
            text_at-some "id" r id shows.has_id,
            text_at-some "session_id" r session_id shows.has_session_id,
            text_at-some "user_id" r user_id shows.has_user_id,
            number_at-some "step_number" r step_number shows.has_step_number,
          )
          refl
    read-Ends ApprovalStatus.expired e =
        rw
          (
            text_at-some "status" r "expired" e,
            text_at-some "id" r id shows.has_id,
            text_at-some "session_id" r session_id shows.has_session_id,
            text_at-some "user_id" r user_id shows.has_user_id,
            number_at-some "step_number" r step_number shows.has_step_number,
          )
          refl
    read-Ends ApprovalStatus.denied e = absurd e
    read-Ends ApprovalStatus.pending e = absurd e

  continue-some :
      (r : Result (Option ApprovalRequest)) (rest : Exec Db ApprovalRequest) (w : World Db)
      (v : Result ApprovalRequest)
      → verdict r ≡ some v
      → (continue r (λ found. or_wait E request_id sleeping found rest) w).0 ≡ v
  unfolding pure
  continue-some (ok none) rest w v h = cc
  continue-some (ok (some r)) rest w v h = cc
  continue-some (err e) rest w v h = cc

  -- A poll that finds nothing settled is followed by a sleep, and changes nothing.
  wait-Waits :
      (left elapsed : ℕ) (w : World Db)
      → Waits w
      → wait E request_id sleeping (suc left) elapsed w
        ≡ wait E request_id sleeping left (suc elapsed) (sleeping elapsed w)
  unfolding wait ◌>>=◌
  wait-Waits left elapsed w h =
      ap
        (λ x.
          continue x.0
            (λ found.
              or_wait E request_id sleeping found
                (λ v. wait E request_id sleeping left (suc elapsed) (sleeping elapsed v)))
            x.1)
        (poll-Waits w h)

  wait-verdict_lem :
      (left k elapsed : ℕ) (w : World Db) (v : Result ApprovalRequest)
      → k < left
      → ((i : ℕ) → i < k → Waits (slept i elapsed w))
      → verdict (poll E request_id (slept k elapsed w)).0 ≡ some v
      → (wait E request_id sleeping left elapsed w).0 ≡ v
  unfolding wait slept ◌>>=◌
  wait-verdict_lem zero k elapsed w v lt h s = absurd (omega (arith, lt))
  wait-verdict_lem (suc left) zero elapsed w v lt h s = continue-some _ _ _ v s
  wait-verdict_lem (suc left) (suc k) elapsed w v lt h s =
      ap (λ x. x.0) (wait-Waits left elapsed w (h 0 (omega arith)))
      ∙ wait-verdict_lem left k (suc elapsed) (sleeping elapsed w) v (omega (arith, lt))
          (λ i l. h (suc i) (omega (arith, l))) s

  wait-timeout_lem :
      (left elapsed : ℕ) (w : World Db)
      → ((i : ℕ) → i < left → Waits (slept i elapsed w))
      → (wait E request_id sleeping left elapsed w).0 ≡ err approval_timeout
  unfolding wait slept ◌>>=◌ raise
  wait-timeout_lem zero elapsed w h = refl
  wait-timeout_lem (suc left) elapsed w h =
      ap (λ x. x.0) (wait-Waits left elapsed w (h 0 (omega arith)))
      ∙ wait-timeout_lem left (suc elapsed) (sleeping elapsed w)
          (λ i l. h (suc i) (omega (arith, l)))

  -- If the polls before number `k`, one each second, find no such request or a pending one, and
  -- poll `k`, before the timeout, finds a row, then waiting raises ApprovalDeniedError if its status
  -- is "denied", and returns the request of the row, with that status and who resolved it and why,
  -- if its status is "approved" or "expired" and the row has the ids and the step number. What other
  -- tasks do while it sleeps is a parameter: the polls themselves change nothing.
  pub wait-verdict :
      (timeout k : ℕ) (w : World Db) (r : Row)
      → k < timeout
      → ((i : ℕ) → i < k → Waits (slept i 0 w))
      → ApprovalRepo.get_by_id E request_id (slept k 0 w) ≡ (ok (some r), slept k 0 w)
      → (get "status" r ≡ some (str "denied")
          → (wait_for_resolution E request_id sleeping timeout w).0 ≡ err approval_denied)
        × ((id session_id user_id : String) (step_number : ℕ) (status : ApprovalStatus)
              (shows : Shows id session_id user_id step_number r)
            → Ends r status
            → (wait_for_resolution E request_id sleeping timeout w).0
              ≡ ok (resolved id session_id user_id step_number r (slept k 0 w) shows status))
  unfolding wait_for_resolution
  wait-verdict timeout k w r lt h found = (
    λ denied.
        wait-verdict_lem timeout k 0 w _ lt h
          (ap verdict (poll-denied r (slept k 0 w) found denied)),
    λ id session_id user_id step_number status shows e. wait-verdict_lem timeout k 0 w _ lt h (
        ap (λ x. verdict x.0) (poll-read (some r) (slept k 0 w) found)
        ∙ ap verdict (read-Ends id session_id user_id step_number r (slept k 0 w) shows status e)),
  )

  -- If every poll before the timeout finds no such request or a pending one, then waiting raises
  -- ApprovalTimeoutError.
  pub wait-timeout :
      (timeout : ℕ) (w : World Db)
      → ((i : ℕ) → i < timeout → Waits (slept i 0 w))
      → (wait_for_resolution E request_id sleeping timeout w).0 ≡ err approval_timeout
  unfolding wait_for_resolution
  wait-timeout timeout w h = wait-timeout_lem timeout 0 w h
