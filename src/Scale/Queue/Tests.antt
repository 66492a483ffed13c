-- ===== src/Scale/Queue/Tests.antt =====
-- A queue of one place and one worker, whose request is taken, and is cancelled, answered or stopped.
use mathlib.Core.List.Perm
use agent_sdk.Prelude.{ℕ, ◌≡◌, refl, some, [], ◌∷◌, arith, str_eq}
use agent_sdk.Prelude.Dict
use agent_sdk.Prelude.Dict.{get}
use agent_sdk.Types.{Error, backpressure, Result, err}
use agent_sdk.Scale.Queue.{
  Entry, value, RequestQueue, returned, new, set_handler, submit, get_result, cancel, start, stop,
  retire, die, take, finish, complete, active_count, handles, submits, cancels, starts, takes,
  works, stops, done, after,
}
use agent_sdk.Scale.Queue.Futures.{steps-settled}
use agent_sdk.Scale.Queue.Kept.{waiting, Works, still, more}

abbrev empty : RequestQueue ℕ ℕ
empty = new 1 1

abbrev one : Entry ℕ
one = record { priority = 5; request_id = "a"; request = 7 }

abbrev ready : RequestQueue ℕ ℕ
ready = start (set_handler empty)

abbrev asked : RequestQueue ℕ ℕ
asked = (submit "a" 7 5 ready).1

abbrev taken : RequestQueue ℕ ℕ
taken = take one [] asked

abbrev answered : RequestQueue ℕ ℕ
answered = finish one [] (returned (some 9)) taken

abbrev to_taken : Works empty taken
unfolding new set_handler start submit take finish get_result cancel stop die retire complete get
    str_eq Dict.put
to_taken =
    more (more (more (more still handles) starts) (submits "a" 7 5 refl))
      (takes one [] Perm.rfl tt (omega arith))

full_submit : (submit "b" 8 0 asked).0 ≡ err backpressure
unfolding new set_handler start submit take finish get_result cancel stop die retire complete get
    str_eq Dict.put
full_submit = refl

answered_result : get_result "a" answered ≡ Result.ok (some (value (some 9)))
unfolding new set_handler start submit take finish get_result cancel stop die retire complete get
    str_eq Dict.put
answered_result = refl

late_cancel : get_result "a" (cancel "a" answered) ≡ err (Error.other "KeyError")
unfolding new set_handler start submit take finish get_result cancel stop die retire complete get
    str_eq Dict.put
late_cancel = refl

-- Cancelling leaves the entry where it is.
cancelled_entry : waiting (cancel "a" asked) ≡ "a" ∷ []
unfolding new set_handler start submit take finish get_result cancel stop die retire complete get
    str_eq Dict.put
cancelled_entry = refl

-- A second start while the handler of a stopped worker is in its cleanup: two requests are
-- processed by a queue of one worker.
abbrev restarted : RequestQueue ℕ ℕ
restarted = start (stop 0 taken)

two_active : active_count (take one [] (submit "b" 8 5 restarted).1) ≡ 2
unfolding new set_handler start submit take finish get_result cancel stop die retire complete get
    str_eq Dict.put
two_active = refl

steps-settled_example : get "a" (stop 0 (cancel "a" answered)).futures ≡ some (value (some 9))
unfolding new set_handler start submit take finish get_result cancel stop die retire complete get
    str_eq Dict.put
steps-settled_example =
    steps-settled "a" (value (some 9)) refl answered (stop 0 (cancel "a" answered))
      (after (after done (works (cancels "a"))) (stops 0 (omega arith))) refl
