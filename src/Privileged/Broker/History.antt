-- ===== src/Privileged/Broker/History.antt =====
-- Histories of the plan store: any sequence of calls, with the answers of the environment.
use sentia_linux.Base.{ℕ, Option, List, [], ◌∷◌, arith, Text}
use sentia_linux.Privileged.Operation.{Operation}
use sentia_linux.Privileged.Broker.{Caller, PlanStore, Digests, pending_of, prepare, consume}
use sentia_linux.Privileged.Broker.Invariant.{
  IsWellFormed, prepare-IsWellFormed, consume-IsWellFormed,
}

pub data Call (Value : Type 0) : Type 0 where
  prepares :
      (entropy : Option (List ℕ)) (caller : Caller) (operation : Operation) (state : Value)
      (now : ℕ)
      → Call Value
  consumes : (id digest : Text) (caller : Caller) (now : ℕ) → Call Value

module _ {Value : Type 0} (d : Digests Value) where
  unfoldable pub step : PlanStore Value → Call Value → PlanStore Value
  step store (prepares entropy caller operation state now) =
      (prepare d entropy store caller operation state now).0
  step store (consumes id digest caller now) = (consume store id digest caller now).0

  unfoldable pub run : PlanStore Value → List (Call Value) → PlanStore Value
  unfolding step
  run store [] = store
  run store (call ∷ calls) = run (step store call) calls

  abbrev pub empty : PlanStore Value
  empty = record { plans = [] }

  step-IsWellFormed :
      (store : PlanStore Value) (call : Call Value)
      → IsWellFormed d store
      → IsWellFormed d (step store call)
  unfolding step
  step-IsWellFormed store (prepares entropy caller operation state now) w =
      prepare-IsWellFormed d entropy store caller operation state now w
  step-IsWellFormed store (consumes id digest caller now) w =
      consume-IsWellFormed d store id digest caller now w

  run_from-IsWellFormed :
      (store : PlanStore Value) (calls : List (Call Value))
      → IsWellFormed d store
      → IsWellFormed d (run store calls)
  unfolding run
  run_from-IsWellFormed store [] w = w
  run_from-IsWellFormed store (call ∷ calls) w =
      run_from-IsWellFormed (step store call) calls (step-IsWellFormed store call w)

  -- After every history of calls from the empty store there are at most 256 pending plans, at most
  -- 8 of one bus name, and each is valid, lives for 120 seconds, is stored under its own id, and
  -- carries the action id of its operation and the digests of its operation and of itself.
  pub run-IsWellFormed : (calls : List (Call Value)) → IsWellFormed d (run empty calls)
  unfolding pending_of
  run-IsWellFormed calls =
      run_from-IsWellFormed empty calls
        (record { entries = tt; bounded = omega arith; fair = λ name. omega arith })
