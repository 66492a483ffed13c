-- ===== src/Governance/Approval/Outcome.antt =====
-- With what status a request comes back from waiting.
use agent_sdk.Prelude.{
  ℕ, zero, suc, String, ◌≡◌, ◌≢◌, refl, false, Option, none, some, arith, str_eq, ◌⊎◌, inl, inr,
  Bool-cases,
}
use agent_sdk.Types.{ApprovalStatus, ok}
use agent_sdk.Db.Sql.{Row}
use agent_sdk.Db.Backend.{Backend}
use agent_sdk.Db.Exec.{World, Exec, pure, ◌>>=◌}
use agent_sdk.Db.Exec.Ensures.{Ensures, Ensures-pure, Ensures-raise, Ensures-then, Ensures-bind}
use agent_sdk.Core.Session.{lift}
use agent_sdk.Governance.Approval.{
  ApprovalRequest, Reason, reasons_of, parse_status, from_row, by_default, settled, inspect, read,
  poll, or_wait, wait, wait_for_resolution,
}

-- The statuses with which a request can come back.
abbrev pub IsFinal : ApprovalStatus → Type 0
IsFinal s = (s ≡ ApprovalStatus.approved) ⊎ (s ≡ ApprovalStatus.expired)

abbrev Settles : Option ApprovalRequest → Type 0
Settles none = Unit
Settles (some r) = IsFinal r.status

parse_status-ne :
    (text : String) (s : ApprovalStatus)
    → str_eq text "pending" ≡ false
    → parse_status text ≡ ok s
    → s ≢ ApprovalStatus.pending
unfolding parse_status
parse_status-ne text s h e = ground arith

module _ {Db : Type 0} (E : Backend Db) where
  from_row-status :
      (r : Row) (status : ApprovalStatus) (why : Reason)
      → Ensures (λ q. q.status ≡ status) (from_row E r none (by_default E) (pure status) why)
  unfolding from_row
  from_row-status r status why = Ensures-then _ _ _ λ id. Ensures-then _ _ _ λ session_id.
      Ensures-then _ _ _ λ user_id. Ensures-then _ _ _ λ step_number. Ensures-then _ _ _ λ policy.
        Ensures-bind _ _ _ (Ensures-pure status refl)
          λ s e. Ensures-then _ _ _ λ time. Ensures-pure _ e

  found_with :
      (r : Row) (status : ApprovalStatus)
      → IsFinal status
      → Ensures Settles (do
        request ← from_row E r none (by_default E) (pure status) (reasons_of r)
        pure (some request))
  found_with r status final =
      Ensures-bind _ _ _ (from_row-status r status (reasons_of r))
        λ q e. Ensures-pure (some q) (rw e final)

  settled-Settles :
      (r : Row) (status : ApprovalStatus)
      → status ≢ ApprovalStatus.pending
      → Ensures Settles (settled E r status)
  unfolding settled
  settled-Settles r ApprovalStatus.pending h = absurd (h refl)
  settled-Settles r ApprovalStatus.approved h = found_with r _ (inl refl)
  settled-Settles r ApprovalStatus.denied h = Ensures-raise _
  settled-Settles r ApprovalStatus.expired h = found_with r _ (inr refl)

  parsed :
      (text : String)
      → str_eq text "pending" ≡ false
      → Ensures {Db = Db} (λ s. s ≢ ApprovalStatus.pending) (lift (parse_status text))
  unfolding lift
  parsed text h = record { at = λ w s e. parse_status-ne text s h e }

  inspect-Settles : (r : Row) (text : String) → Ensures Settles (inspect E r text)
  unfolding inspect
  inspect-Settles r text = elim (Bool-cases (str_eq text "pending")) [
    | inl e ↦ rw e (Ensures-pure none tt)
    | inr e ↦ rw e (Ensures-bind _ _ _ (parsed text e) λ s ne. settled-Settles r s ne)
  ]

  read-Settles : (row : Option Row) → Ensures Settles (read E row)
  unfolding read
  read-Settles none = Ensures-pure none tt
  read-Settles (some r) = Ensures-then _ _ _ λ text. inspect-Settles r text

  poll-Settles : (request_id : String) → Ensures Settles (poll E request_id)
  unfolding poll
  poll-Settles request_id = Ensures-then _ _ _ λ row. read-Settles row

  module _ (request_id : String) (sleeping : ℕ → World Db → World Db) where
    or_wait-IsFinal :
        (found : Option ApprovalRequest) (rest : Exec Db ApprovalRequest)
        → Settles found
        → Ensures (λ q. IsFinal q.status) rest
        → Ensures (λ q. IsFinal q.status) (or_wait E request_id sleeping found rest)
    or_wait-IsFinal none rest h k = k
    or_wait-IsFinal (some q) rest h k = Ensures-pure q h

    wait-IsFinal :
        (left elapsed : ℕ)
        → Ensures (λ q. IsFinal q.status) (wait E request_id sleeping left elapsed)
    unfolding wait
    wait-IsFinal zero elapsed = Ensures-raise _
    wait-IsFinal (suc left) elapsed = Ensures-bind _ _ _ (poll-Settles request_id) λ found h.
        or_wait-IsFinal found _ h
          (record { at = λ w q e. (wait-IsFinal left (suc elapsed)).at (sleeping elapsed w) q e })

    -- A request that waiting returns is approved or expired: it is neither pending nor denied.
    pub wait_for_resolution-IsFinal :
        (timeout : ℕ) (w : World Db) (q : ApprovalRequest)
        → (wait_for_resolution E request_id sleeping timeout w).0 ≡ ok q
        → IsFinal q.status
    unfolding wait_for_resolution
    wait_for_resolution-IsFinal timeout w q e = (wait-IsFinal timeout 0).at w q e
