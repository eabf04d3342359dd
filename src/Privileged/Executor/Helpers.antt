-- ===== src/Privileged/Executor/Helpers.antt =====
-- Running a helper program (executor.rs, bounded_read, run_helper, run_fixed, service_arguments).
use sentia_linux.Base.{
  ℕ, ◌/◌, ◌%◌, ◌≤◌, ◌≡◌, refl, ◌⊎◌, inl, inr, Bool, true, false, ◌&&◌, ◌||◌, not, Option, none,
  some, List, [], ◌∷◌, arith, Text, codes, length, ltb, ◌==◌, if◌then◌else◌, text_eq, Result, ok,
  err, reject, ok_or, All, Bool-cases, Result-cases, Option-cases,
}
use sentia_linux.Privileged.Operation.{
  Error, ServiceAction, argument, validate_unit, executable_not_allowed, helper_unavailable,
  subprocess_io_failed, subprocess_output_limit, subprocess_failed, subprocess_timeout,
}
use sentia_linux.Privileged.Executor.Paths.{Metadata}
use sentia_linux.Privileged.Executor.Effects.{
  Effect, spawn, terminate_group, kill_group, Act, ◌>>=◌, ◌>>◌, look, effect, All-bind,
}

abbrev pub systemctl : Text
systemctl = codes "/usr/bin/systemctl"

abbrev pub apt_worker : Text
apt_worker = codes "/usr/libexec/sentia/sentia-apt-worker"

abbrev pub max_output : ℕ
max_output = 1048576

unfoldable pub service_arguments : ServiceAction → Text → Result Error (List Text)
service_arguments action unit = elim (validate_unit unit) [
  | err e ↦ err e
  | ok _ ↦
      ok (codes "--no-ask-password" ∷ codes "--no-pager" ∷ argument action ∷ codes "--" ∷ unit ∷ [])
]

-- `bounded_read`: `stream` is what the reader yields, `none` if it fails.
unfoldable pub bounded_read : Option Text → Result Error Text
bounded_read none = err subprocess_io_failed
bounded_read (some bytes) =
    if ltb max_output (length bytes) then err subprocess_output_limit else ok bytes

-- What the kernel answers about a helper and its run.
pub record HelperRun : Type 0 where
  -- `trusted_path` and `std::fs::metadata` of the executable
  pub trusted : Result Error (Unit {0})
  pub metadata : Option Metadata
  -- whether the program starts, with its pipes
  pub starts : Bool
  -- whether its input is taken, and what its two outputs and its exit status are
  pub input_taken : Bool
  pub stdout : Option Text
  pub stderr : Option Text
  pub status : Option Bool
  pub in_time : Bool

pub record HelperOutput : Type 0 where
  pub success : Bool
  pub stdout : Text

-- `mode & 0o111 != 0`
abbrev pub is_executable : ℕ → Bool
is_executable mode = not (mode / 64 % 2 == 0) || not (mode / 8 % 2 == 0) || not (mode % 2 == 0)

-- Input and outputs are served together. All their failures are reported alike; where several of
-- them fail the model reports them in this order.
unfoldable pub execution : HelperRun → Result Error HelperOutput
unfolding bounded_read
execution run =
    if not run.input_taken then err subprocess_io_failed else elim (bounded_read run.stdout) [
      | err e ↦ err e
      | ok output ↦ elim (bounded_read run.stderr) [
        | err e ↦ err e
        | ok _ ↦ elim run.status [
          | none ↦ err subprocess_failed
          | some success ↦ ok (record { success = success; stdout = output })
        ]
      ]
    ]

-- A run that fails or takes too long is ended by signals to its own process group.
unfoldable pub finish : Bool → Result Error HelperOutput → Act HelperOutput
finish true (ok output) = ([], ok output)
finish true (err e) = (terminate_group ∷ kill_group ∷ [], err e)
finish false _ = (terminate_group ∷ kill_group ∷ [], err subprocess_timeout)

abbrev pub is_helper : Text → Bool
is_helper executable = text_eq.beq executable systemctl || text_eq.beq executable apt_worker

abbrev pub is_usable : Metadata → Bool
is_usable m = m.is_file && is_executable m.mode

unfoldable pub run_helper : HelperRun → Text → List Text → Option Text → Act HelperOutput
unfolding finish execution
run_helper run executable arguments input = do
  look (reject (not (is_helper executable)) executable_not_allowed)
  look run.trusted
  metadata ← look (ok_or run.metadata helper_unavailable)
  look (reject (not (is_usable metadata)) helper_unavailable)
  look (reject (not run.starts) helper_unavailable)
  effect (spawn executable arguments input)
  finish run.in_time (execution run)

unfoldable pub take_output : HelperOutput → Result Error Text
take_output output = if output.success then ok output.stdout else err subprocess_failed

unfoldable pub run_fixed : HelperRun → Text → List Text → Option Text → Act Text
unfolding run_helper take_output
run_fixed run executable arguments input = do
  output ← run_helper run executable arguments input
  look (take_output output)

-- What a run of one of the two helpers may do.
abbrev pub IsHelperEffect : Text → List Text → Option Text → Effect → Type 0
IsHelperEffect executable arguments input e =
    (e ≡ spawn executable arguments input) ⊎ ((e ≡ terminate_group) ⊎ (e ≡ kill_group))

helper_names :
    (executable : Text)
    → is_helper executable ≡ true
    → (executable ≡ systemctl) ⊎ (executable ≡ apt_worker)
helper_names executable h = elim (Bool-cases (text_eq.beq executable systemctl)) [
  | inl e ↦ inl ((text_eq.beq_iff executable systemctl).0 e)
  | inr n ↦ inr ((text_eq.beq_iff executable apt_worker).0 (rw n at h))
]

finish-effects :
    (executable : Text) (arguments : List Text) (input : Option Text) (in_time : Bool)
    (r : Result Error HelperOutput)
    → All (IsHelperEffect executable arguments input) (finish in_time r).0
unfolding finish
finish-effects executable arguments input true (ok output) = tt
finish-effects executable arguments input true (err e) = (inr (inl refl), (inr (inr refl), tt))
finish-effects executable arguments input false (ok output) = (inr (inl refl), (inr (inr refl), tt))
finish-effects executable arguments input false (err e) = (inr (inl refl), (inr (inr refl), tt))

-- Whatever the system answers, a run has no effect unless the program is systemctl or the package
-- worker, its path is trusted, and it is an executable file; then it starts that program, with
-- these arguments and this input, and beyond that signals only its own process group.
pub run_helper-effects :
    (run : HelperRun) (executable : Text) (arguments : List Text) (input : Option Text)
    → ((run_helper run executable arguments input).0 ≡ [])
      ⊎ (((executable ≡ systemctl) ⊎ (executable ≡ apt_worker))
          × (run.trusted ≡ ok tt)
          × ((m : Metadata) × (run.metadata ≡ some m) × (is_usable m ≡ true))
          × All
              (IsHelperEffect executable arguments input)
              (run_helper run executable arguments input).0)
unfolding run_helper
run_helper-effects run executable arguments input = elim (Bool-cases (is_helper executable)) [
  | inr other ↦ inl (rw (other, run_helper) refl)
  | inl helper ↦ elim (Result-cases run.trusted) [
    | inr (e, t) ↦ inl (rw (helper, t, run_helper) refl)
    | inl (_, t) ↦ elim (Option-cases run.metadata) [
      | inl m ↦ inl (rw (helper, t, m, run_helper) refl)
      | inr (m, found) ↦ elim (Bool-cases (is_usable m)) [
        | inr bad ↦ inl (rw (helper, t, found, bad, run_helper) refl)
        | inl usable ↦ elim (Bool-cases run.starts) [
          | inr still ↦ inl (rw (helper, t, found, usable, still, run_helper) refl)
          | inl starts ↦ inr (
            helper_names executable helper,
            t,
            (m, found, usable),
            rw (helper, t, found, usable, starts, run_helper)
                (inl refl, finish-effects executable arguments input run.in_time (execution run)),
          )
        ]
      ]
    ]
  ]
]

-- A helper's output that is handed on has at most 1 MiB, and the helper exited successfully in time.
pub run_fixed-eq-ok :
    (run : HelperRun) (executable : Text) (arguments : List Text) (input : Option Text)
    (output : Text)
    → (run_fixed run executable arguments input).1 ≡ ok output
    → (run.stdout ≡ some output)
      × (length output ≤ 1048576)
      × (run.status ≡ some true)
      × (run.in_time ≡ true)
      × (is_helper executable ≡ true)
unfolding run_fixed
run_fixed-eq-ok run executable arguments input output h =
    (ground arith, ground arith, ground arith, ground arith, ground arith)

pub run_helper-All :
    (run : HelperRun) (executable : Text) (arguments : List Text) (input : Option Text)
    → All (IsHelperEffect executable arguments input) (run_helper run executable arguments input).0
run_helper-All run executable arguments input =
    elim (run_helper-effects run executable arguments input) [
      | inl nothing ↦ rw nothing tt
      | inr (_, _, _, all) ↦ all
    ]

pub run_fixed-All :
    (run : HelperRun) (executable : Text) (arguments : List Text) (input : Option Text)
    → All (IsHelperEffect executable arguments input) (run_fixed run executable arguments input).0
unfolding run_fixed
run_fixed-All run executable arguments input =
    All-bind (IsHelperEffect executable arguments input) (run_helper run executable arguments input)
      (λ output. look (take_output output)) (run_helper-All run executable arguments input)
      (λ output e. tt)
