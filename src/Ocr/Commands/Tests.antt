-- ===== src/Ocr/Commands/Tests.antt =====
-- The theorem on subprocesses (backend/src/ocr/tools/run-command.ts) at a concrete input.
use docuai.Base.{◌≤◌, ◌≡◌, refl, true, some, List, [], ◌∷◌, length}
use docuai.Ocr.Commands.{
  run_events, ChildEvent, stdout_chunk, timeout, close, RunCommandResult, ended, run_command,
}
use docuai.Ocr.Commands.Captured.{timed_out_before_end, run_command-le}

-- The second chunk would exceed the limit and is dropped; a smaller one behind it is kept.
abbrev events : List ChildEvent
events =
    stdout_chunk (97 ∷ 98 ∷ [])
    ∷ stdout_chunk (99 ∷ 100 ∷ [])
    ∷ stdout_chunk (101 ∷ [])
    ∷ timeout
    ∷ close (some 1)
    ∷ []

abbrev result : RunCommandResult
result = record { exit_code = some 1; stdout = 97 ∷ 98 ∷ 101 ∷ []; stderr = []; timed_out = true }

command_run : run_command 3 events ≡ some (ended result)
unfolding run_command run_events
command_run = refl

run_command-le_example :
    (length result.stdout ≤ 3)
    × (length result.stderr ≤ 65536)
    × (result.timed_out ≡ timed_out_before_end events)
run_command-le_example = run_command-le 3 events result command_run
