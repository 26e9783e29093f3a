-- ===== src/Ocr/Commands/Captured.antt =====
-- What runCommand (backend/src/ocr/tools/run-command.ts) keeps of the output of a subprocess.
use docuai.Base.{
  subst, ◌∙◌, ◌||◌, ℕ, ◌+◌, ◌≤◌, ◌≡◌, refl, Bool, true, false, some, List, [], ◌∷◌, arith, length,
  length-append, Bool-cases, inl, inr, ltb,
}
use docuai.Ocr.Commands.{
  crashed, command_not_found, ChildEvent, stdout_chunk, stderr_chunk, timeout, spawn_error, close,
  RunCommandResult, ended, kept, run_events, run_command,
}

kept-le :
    (limit : ℕ) (captured chunk : List ℕ)
    → length captured ≤ limit
    → length (kept limit captured chunk) ≤ limit
kept-le limit captured chunk h = elim (Bool-cases (ltb limit (length captured + length chunk))) [
  | inl e ↦ rw e h
  | inr e ↦ rw e (ground (arith, e, length-append captured chunk))
]

-- The time limit was met before the process ended.
abbrev pub timed_out_before_end : List ChildEvent → Bool
timed_out_before_end [] = false
timed_out_before_end (timeout ∷ events) = true
timed_out_before_end (close code ∷ events) = false
timed_out_before_end (spawn_error e ∷ events) = false
timed_out_before_end (stdout_chunk c ∷ events) = timed_out_before_end events
timed_out_before_end (stderr_chunk c ∷ events) = timed_out_before_end events

or-true : (b : Bool) → true ≡ (b || true)
or-true true = refl
or-true false = refl

or-false : (b : Bool) → b ≡ (b || false)
or-false true = refl
or-false false = refl

module _ (max_output : ℕ) where
  run_events-le :
      (stdout stderr : List ℕ) (late : Bool) (events : List ChildEvent) (r : RunCommandResult)
      → length stdout ≤ max_output
      → length stderr ≤ 65536
      → run_events max_output stdout stderr late events ≡ some (ended r)
      → (length r.stdout ≤ max_output)
        × (length r.stderr ≤ 65536)
        × (r.timed_out ≡ (late || timed_out_before_end events))
  unfolding run_events
  run_events-le stdout stderr late [] r h k e = absurd (cc)
  run_events-le stdout stderr late (stdout_chunk c ∷ events) r h k e =
      run_events-le (kept max_output stdout c) stderr late events r (kept-le max_output stdout c h)
        k e
  run_events-le stdout stderr late (stderr_chunk c ∷ events) r h k e =
      run_events-le stdout (kept 65536 stderr c) late events r h (kept-le 65536 stderr c k) e
  run_events-le stdout stderr late (timeout ∷ events) r h k e =
      let (a, b, c) = run_events-le stdout stderr true events r h k e in (a, b, c ∙ or-true late)
  run_events-le stdout stderr late (spawn_error e' ∷ events) r h k e = elim (Bool-cases e') [
    | inl t ↦
        absurd (let f : some command_not_found ≡ some (ended r) = rw (run_events, t) at e in cc)
    | inr t ↦ absurd (let f : some crashed ≡ some (ended r) = rw (run_events, t) at e in cc)
  ]
  run_events-le stdout stderr late (close code ∷ events) r h k e =
      let result : RunCommandResult = record {
        exit_code = code;
        stdout = stdout;
        stderr = stderr;
        timed_out = late;
      } in
      let same : result ≡ r = cc in
      subst
        (λ x.
          (length x.stdout ≤ max_output)
          × (length x.stderr ≤ 65536)
          × (x.timed_out ≡ (late || false)))
        same (h, k, or-false late)

  -- A command that ends has kept no more output than allowed, and is marked as timed out exactly when
  -- its time was up before it ended.
  pub run_command-le :
      (events : List ChildEvent) (r : RunCommandResult)
      → run_command max_output events ≡ some (ended r)
      → (length r.stdout ≤ max_output)
        × (length r.stderr ≤ 65536)
        × (r.timed_out ≡ timed_out_before_end events)
  unfolding run_command
  run_command-le events r e = run_events-le [] [] false events r (omega arith) (omega arith) e
