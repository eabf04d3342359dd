-- ===== src/Router/Breakers.antt =====
-- crates/sentia-router/src/provider.rs, CircuitBreakers: a provider that fails too often is left
-- alone for a while. The time that a method reads is its argument.
pub mod Opening
use sentia_linux.Base.{
  ℕ, ◌+◌, Bool, true, false, Option, none, some, List, [], Text, leb, ltb, if◌then◌else◌, lookup,
  insert, remove, text_eq,
}

pub record CircuitState : Type 0 where
  pub failures : ℕ
  pub open_until : Option ℕ

pub record CircuitBreakers : Type 0 where
  pub states : List (Text × CircuitState)
  pub threshold : ℕ
  pub cooldown : ℕ

pub new_breakers : ℕ → ℕ → CircuitBreakers
new_breakers threshold cooldown = record { states = []; threshold = threshold; cooldown = cooldown }

-- `saturating_add(1)` on u32
abbrev pub saturating_suc32 : ℕ → ℕ
saturating_suc32 n = if leb 4294967295 n then 4294967295 else n + 1

abbrev pub closed : CircuitState
closed = record { failures = 0; open_until = none }

pub allow_deadline : CircuitBreakers → Text → ℕ → CircuitState → Option ℕ → CircuitBreakers × Bool
allow_deadline b provider now state none = (b, true)
allow_deadline b provider now state (some deadline) =
    if ltb now deadline
    then (b, false)
    else (record b { states = insert provider closed b.states }, true)

pub allow_state : CircuitBreakers → Text → ℕ → Option CircuitState → CircuitBreakers × Bool
unfolding allow_deadline
allow_state b provider now none = (b, true)
allow_state b provider now (some state) = allow_deadline b provider now state state.open_until

pub allow : CircuitBreakers → Text → ℕ → CircuitBreakers × Bool
unfolding allow_state
allow b provider now = allow_state b provider now (lookup provider b.states)

pub success : CircuitBreakers → Text → CircuitBreakers
success b provider = record b { states = remove provider b.states }

abbrev pub or_closed : Option CircuitState → CircuitState
or_closed none = closed
or_closed (some state) = state

-- The state after one more failure.
abbrev pub counted : ℕ → ℕ → ℕ → CircuitState → CircuitState
counted threshold cooldown now state =
    let failures = saturating_suc32 state.failures in
    record {
      failures = failures;
      open_until = if leb threshold failures then some (now + cooldown) else state.open_until;
    }

pub failure : CircuitBreakers → Text → ℕ → CircuitBreakers
failure b provider now = record b {
  states =
      insert provider (counted b.threshold b.cooldown now (or_closed (lookup provider b.states)))
        b.states;
}
