-- ===== src/Protocol/Status/Runs.antt =====
-- Runs of a request through its statuses: they are short, and end where the program says so.
use sentia_linux.Base.{ℕ, ◌≤◌, ◌<◌, ◌≡◌, ◌↔◌, refl, Bool, true, false, List, [], ◌∷◌, length, arith}
use sentia_linux.Protocol.Status.{
  RequestStatus, received, queued, awaiting_consent, running_local, running_remote,
  fallback_to_local, completed, failed, cancel_requested, cancelled, is_valid_status_transition,
}

-- The statuses that a request goes through from `s` are a chain of valid transitions.
abbrev pub IsRun : RequestStatus → List RequestStatus → Type 0
IsRun s [] = Unit
IsRun s (t ∷ ts) = (is_valid_status_transition s t ≡ true) × IsRun t ts

-- How many transitions may follow a status.
abbrev pub steps_left : RequestStatus → ℕ
steps_left received = 6
steps_left queued = 5
steps_left awaiting_consent = 5
steps_left running_remote = 4
steps_left fallback_to_local = 3
steps_left running_local = 2
steps_left cancel_requested = 1
steps_left completed = 0
steps_left failed = 0
steps_left cancelled = 0

steps_left_falls :
    (s t : RequestStatus) → is_valid_status_transition s t ≡ true → steps_left t < steps_left s
unfolding is_valid_status_transition
steps_left_falls s t h = ground arith

length-le : (s : RequestStatus) (ts : List RequestStatus) → IsRun s ts → length ts ≤ steps_left s
length-le s [] r = omega arith
length-le s (t ∷ ts) (h, r) = omega (arith, steps_left_falls s t h, length-le t ts r)

-- The last status of a run.
abbrev pub last_status : RequestStatus → List RequestStatus → RequestStatus
last_status s [] = s
last_status s (t ∷ ts) = last_status t ts

abbrev pub IsFinal : RequestStatus → Type 0
IsFinal s = (t : RequestStatus) → is_valid_status_transition s t ≡ false

abbrev pub is_outcome : RequestStatus → Bool
is_outcome completed = true
is_outcome failed = true
is_outcome cancelled = true
is_outcome _ = false

-- A way on from each status to an outcome.
abbrev way_out : RequestStatus → List RequestStatus
way_out received = queued ∷ running_local ∷ completed ∷ []
way_out queued = running_local ∷ completed ∷ []
way_out awaiting_consent = running_remote ∷ completed ∷ []
way_out running_remote = completed ∷ []
way_out fallback_to_local = running_local ∷ completed ∷ []
way_out running_local = completed ∷ []
way_out cancel_requested = cancelled ∷ []
way_out s = []

way_out-IsRun : (s : RequestStatus) → IsRun s (way_out s)
unfolding is_valid_status_transition
way_out-IsRun s = ground arith

way_out-is_outcome : (s : RequestStatus) → is_outcome (last_status s (way_out s)) ≡ true
way_out-is_outcome s = ground arith

IsFinal-is_outcome : (s : RequestStatus) → IsFinal s → is_outcome s ≡ true
unfolding is_valid_status_transition
IsFinal-is_outcome received f = cc (f queued)
IsFinal-is_outcome queued f = cc (f running_local)
IsFinal-is_outcome awaiting_consent f = cc (f running_remote)
IsFinal-is_outcome running_remote f = cc (f completed)
IsFinal-is_outcome fallback_to_local f = cc (f running_local)
IsFinal-is_outcome running_local f = cc (f completed)
IsFinal-is_outcome cancel_requested f = cc (f cancelled)
IsFinal-is_outcome completed f = refl
IsFinal-is_outcome failed f = refl
IsFinal-is_outcome cancelled f = refl

is_outcome-IsFinal : (s : RequestStatus) → is_outcome s ≡ true → IsFinal s
unfolding is_valid_status_transition
is_outcome-IsFinal s h t = ground arith

-- A request takes at most six valid transitions from Received. Wherever it is, valid transitions
-- lead on to an outcome (Completed, Failed or Cancelled), and no transition leaves its status
-- exactly if that is an outcome.
pub IsRun-ends :
    (ts : List RequestStatus)
    → IsRun received ts
    → (length ts ≤ 6)
      × ((more : List RequestStatus) × IsRun (last_status received ts) more
          × (is_outcome (last_status (last_status received ts) more) ≡ true))
      × (IsFinal (last_status received ts) ↔ (is_outcome (last_status received ts) ≡ true))
IsRun-ends ts r =
    let s = last_status received ts in
    (
      length-le received ts r,
      (way_out s, way_out-IsRun s, way_out-is_outcome s),
      (IsFinal-is_outcome s, is_outcome-IsFinal s),
    )

-- A request that is answered by the local model.
abbrev pub is_local : RequestStatus → Bool
is_local fallback_to_local = true
is_local running_local = true
is_local completed = true
is_local failed = true
is_local cancel_requested = true
is_local cancelled = true
is_local _ = false

local_stays :
    (s t : RequestStatus)
    → is_local s ≡ true
    → is_valid_status_transition s t ≡ true
    → is_local t ≡ true
unfolding is_valid_status_transition
local_stays s t l h = ground arith

-- A request that has turned to the local model (or has ended) is never sent to a remote provider
-- afterwards, and asks for no consent.
pub IsRun-local :
    (s : RequestStatus) (ts : List RequestStatus)
    → is_local s ≡ true
    → IsRun s ts
    → is_local (last_status s ts) ≡ true
IsRun-local s [] l r = l
IsRun-local s (t ∷ ts) l (h, r) = IsRun-local t ts (local_stays s t l h) r
