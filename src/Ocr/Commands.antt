-- ===== src/Ocr/Commands.antt =====
-- backend/src/ocr/tools/run-command.ts: a subprocess as the sequence of the events that Node reports for
-- it, and the outcome of the call.
pub mod Captured
mod Tests
use docuai.Base.{
  ℕ, ◌+◌, Bool, true, false, Option, none, some, List, [], ◌∷◌, ◌++◌, ltb, if◌then◌else◌, length,
}

-- A chunk is the list of its bytes, which stand for the text that they encode.
pub data ChildEvent : Type 0 where
  stdout_chunk stderr_chunk : List ℕ → ChildEvent
  timeout : ChildEvent
  spawn_error : (not_found : Bool) → ChildEvent
  close : (exit_code : Option ℕ) → ChildEvent

pub record RunCommandResult : Type 0 where
  pub exit_code : Option ℕ
  pub stdout : List ℕ
  pub stderr : List ℕ
  pub timed_out : Bool

-- How the promise is settled: a result, a CommandNotFoundError, or another error.
pub data CommandOutcome : Type 0 where
  ended : RunCommandResult → CommandOutcome
  command_not_found crashed : CommandOutcome

-- `if (bytes + chunk.length > limit) return;` before the chunk is kept
abbrev pub kept : (limit : ℕ) → (captured chunk : List ℕ) → List ℕ
kept limit captured chunk =
    if ltb limit (length captured + length chunk) then captured else captured ++ chunk

module _ (max_output : ℕ) where
  -- The events behind what was captured so far; `none` while the promise is not settled.
  pub run_events :
      (stdout stderr : List ℕ) (timed_out : Bool) → List ChildEvent → Option CommandOutcome
  run_events stdout stderr timed_out [] = none
  run_events stdout stderr timed_out (stdout_chunk chunk ∷ events) =
      run_events (kept max_output stdout chunk) stderr timed_out events
  run_events stdout stderr timed_out (stderr_chunk chunk ∷ events) =
      run_events stdout (kept 65536 stderr chunk) timed_out events
  run_events stdout stderr timed_out (timeout ∷ events) = run_events stdout stderr true events
  run_events stdout stderr timed_out (spawn_error not_found ∷ events) =
      some (if not_found then command_not_found else crashed)
  run_events stdout stderr timed_out (close exit_code ∷ events) = some (
      ended
        (record { exit_code = exit_code; stdout = stdout; stderr = stderr; timed_out = timed_out }))

  pub run_command : List ChildEvent → Option CommandOutcome
  run_command events = run_events [] [] false events
