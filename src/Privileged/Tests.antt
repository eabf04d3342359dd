-- ===== src/Privileged/Tests.antt =====
-- Test data for the privileged broker: a flat model of JSON values, a caller, a plan, and the answers
-- of a system on which everything goes well.
pub mod Operations
pub mod Plans
pub mod Execution
pub mod Methods
use sentia_linux.Base.{
  ℕ, zero, suc, ◌≡◌, ◌≢◌, ap, ◌↔◌, Bool, true, false, ◌&&◌, none, some, List, [], ◌∷◌, ◌++◌, map,
  arith, Text, codes, text_beq, text_beq_iff, lookup, insert, text_eq, Result, ok,
}
use sentia_linux.Privileged.Operation.{Error, Operation, service, restart, action_id}
use sentia_linux.Privileged.Json.{Json}
use sentia_linux.Privileged.Broker.{Caller, CanonicalPlan, Prepared, PlanStore, Digests, hex}
use sentia_linux.Privileged.Executor.Helpers.{HelperRun}
use sentia_linux.Privileged.Executor.Paths.{Component, root_dir, normal, Metadata}
use sentia_linux.Privileged.Executor.Files.{FileAnswers}
use sentia_linux.Privileged.Executor.Processes.{ProcReads}
use sentia_linux.Privileged.Executor.Snapshots.{Looks}
use sentia_linux.Privileged.Executor.Execute.{Answers}
use sentia_linux.Privileged.Service.{PrepareAnswers, ApplyAnswers}
use sentia_linux.Privileged.Callers.{Peer, decided}

abbrev pub replicate : ℕ → ℕ → Text
replicate zero b = []
replicate (suc n) b = b ∷ replicate n b

-- A JSON value as a flat table from keys to texts; a plain text stands under the empty key.
abbrev pub Flat : Type 0
Flat = List (Text × Text)

abbrev pub flat_beq : Flat → Flat → Bool
flat_beq [] [] = true
flat_beq ((k, v) ∷ s) ((l, w) ∷ t) = text_beq k l && text_beq v w && flat_beq s t
flat_beq _ _ = false

pub flat_beq_iff : (s t : Flat) → (flat_beq s t ≡ true) ↔ (s ≡ t)
flat_beq_iff [] [] = ground arith
flat_beq_iff [] ((l, w) ∷ t) = ground arith
flat_beq_iff ((k, v) ∷ s) [] = ground arith
flat_beq_iff ((k, v) ∷ s) ((l, w) ∷ t) =
    ground (arith, text_beq_iff k l, text_beq_iff v w, flat_beq_iff s t)

abbrev pub text_of : Flat → Text
text_of [] = []
text_of ((k, v) ∷ t) = v

abbrev pub plain : Text → Flat
plain t = ([], t) ∷ []

abbrev pub answer : Flat
answer =
    (codes "protocol_version", codes "1.0")
    ∷ (codes "request_id", codes "sentia-root-plan")
    ∷ (codes "operation", codes "apt_update")
    ∷ (codes "status", codes "ok")
    ∷ (codes "result", codes "done")
    ∷ []

abbrev pub flat_json : Json
flat_json = record {
  Value = Flat;
  equality = record { beq = flat_beq; beq_iff = flat_beq_iff };
  object = map (λ p. (p.0, text_of p.1));
  string = plain;
  array = λ vs. plain [];
  boolean = λ b. plain (codes "flag");
  number = λ n. plain (n ∷ []);
  assign = λ v k w. insert k (text_of w) v;
  get = λ v k. elim (lookup k v) [ none ↦ none | some t ↦ some (plain t) ];
  as_str = λ v. some (text_of v);
  is_object = λ v. true;
  encode = λ v. some (text_of v);
  decode = λ t. some answer;
}

abbrev pub sha : Text
sha = replicate 64 b'a'

abbrev pub digests : Digests Flat
digests = record { of_operation = λ o. ok sha; of_caller = λ c. ok sha; of_plan = λ p. ok sha }

abbrev pub timestamp : ℕ → Result Error Text
timestamp t = ok (codes "1970-01-01T00:18:40Z")

abbrev pub alice : Caller
alice = record {
  unique_name = codes ":1.42";
  uid = 1000;
  pid = 4242;
  process_start = 99;
  session = codes "/session/1";
}

abbrev pub mallory : Caller
mallory = record (alice) { uid = 1001 }

abbrev pub ssh : Text
ssh = codes "ssh.service"

abbrev pub restart_ssh : Operation
restart_ssh = service restart ssh

abbrev pub nonce : List ℕ
nonce = replicate 32 171

abbrev pub other_nonce : List ℕ
other_nonce = replicate 32 187

abbrev first_of : Text → ℕ
first_of [] = 0
first_of (b ∷ t) = b

pub other_id : hex other_nonce ≢ hex nonce
other_id e = absurd (omega (arith, ap first_of e))

abbrev pub state : Flat
state = (codes "properties", codes "loaded") ∷ (codes "files", sha) ∷ []

abbrev pub apt_state : Flat
apt_state = (codes "plan_digest", sha) ∷ []

abbrev pub plan_of : Operation → Text → CanonicalPlan Flat
plan_of operation action = record {
  version = 1;
  id = hex nonce;
  caller = alice;
  action_id = action;
  operation = operation;
  argument_digest = sha;
  state = state;
  issued_at = 1000;
  expires_at = 1120;
}

abbrev pub plan : CanonicalPlan Flat
plan = plan_of restart_ssh (codes "org.sentia.system.service-restart")

abbrev pub prepared : Prepared Flat
prepared = record { plan = plan; digest = sha }

abbrev pub store : PlanStore Flat
store = record { plans = (hex nonce, prepared) ∷ [] }

abbrev pub no_plans : PlanStore Flat
no_plans = record { plans = [] }

abbrev pub good_run : HelperRun
good_run = record {
  trusted = ok tt;
  metadata = some (record { is_symlink = false; is_file = true; uid = 0; mode = 493 });
  starts = true;
  input_taken = true;
  stdout = some (codes "done");
  stderr = some [];
  status = some true;
  in_time = true;
}

-- A unit that runs, as systemctl shows it.
abbrev pub shown : Text
shown =
    codes "LoadState=loaded"
    ++ 10 ∷ codes "NeedDaemonReload=no"
    ++ 10 ∷ codes "FragmentPath=/lib/systemd/system/ssh.service"

abbrev pub good_reads : ProcReads
good_reads = record { first_stat = none; owner = none; name_stat = none; last_stat = none }

abbrev pub root_owned : Metadata
root_owned = record { is_symlink = false; is_file = true; uid = 0; mode = 420 }

abbrev pub unit_path : List Component
unit_path =
    root_dir
    ∷ normal (codes "usr")
    ∷ normal (codes "lib")
    ∷ normal (codes "systemd")
    ∷ normal (codes "system")
    ∷ normal ssh
    ∷ []

abbrev pub good_file : FileAnswers
good_file = record {
  parent_metadata = λ path. some root_owned;
  link_metadata = some root_owned;
  canonical = some unit_path;
  canonical_metadata = λ path. some root_owned;
  opens = true;
  file_metadata = some root_owned;
  content = some (codes "[Service]");
}

abbrev pub good_looks : Looks
good_looks = record {
  run = record (good_run) { stdout = some shown };
  from_utf8 = some;
  components = λ path. unit_path;
  files = λ path. good_file;
  sha256 = λ bytes. sha;
  reads = good_reads;
  broker_pid = 1;
}

abbrev pub good_answers : Answers flat_json
good_answers = record {
  before = good_looks;
  after = good_looks;
  clock = some 1010;
  run = good_run;
  opens = true;
  gone = some false;
  signalled = true;
  polls = λ i. some true;
}

abbrev pub good_peer : Peer
good_peer = record {
  bus = true;
  uid = some 1000;
  pid = some 4242;
  started = ok 99;
  manager = true;
  session_path = some (codes "/session/1");
  session = true;
  active = some true;
  remote = some false;
  class = some (codes "user");
  user = some 1000;
  still_pid = some 4242;
  started_again = ok 99;
}

abbrev pub preparing : PrepareAnswers flat_json
preparing = record {
  sender = some (codes ":1.42");
  peer = good_peer;
  lock_free = true;
  snapshot = good_looks;
  peer_again = good_peer;
  clock = some 1000;
  entropy = some nonce;
}

abbrev pub applying : ApplyAnswers flat_json
applying = record {
  sender = some (codes ":1.42");
  peer = good_peer;
  lock_free = true;
  clock = some 1005;
  before = good_looks;
  clock_before = some 1006;
  polkit = λ c action. decided true;
  peer_again = good_peer;
  after = good_looks;
  clock_after = some 1009;
  execution = good_answers;
}
