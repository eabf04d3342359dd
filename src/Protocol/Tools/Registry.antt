-- ===== src/Protocol/Tools/Registry.antt =====
-- What a registry of tools that passes its check holds, and what the required tools are allowed.
use sentia_linux.Base.{
  ◌≡◌, ◌≢◌, ◌↔◌, refl, subst, true, ◌||◌, List, [], ◌∷◌, arith, mem, All, Distinct, Fresh,
  Fresh-Distinct, Distinct-Fresh, none_seen, text_beq, text_beq_iff, ok, bind-eq-ok, then-eq-ok,
  mem-All,
}
use sentia_linux.Protocol.Errors.{ensure, ensure_iff}
use sentia_linux.Protocol.Requests.{protocol_version}
use sentia_linux.Protocol.Tools.Names.{ToolName, all_tools, tool_eq}
use sentia_linux.Protocol.Tools.{
  ToolDefinition, ToolRegistry, check_tools, check_required, validate_complete_required_set,
}

abbrev names_of : List ToolDefinition → List ToolName
names_of [] = []
names_of (t ∷ ts) = t.name ∷ names_of ts

-- A tool takes and returns at least one byte.
abbrev IsBounded : ToolDefinition → Type 0
IsBounded t = (t.max_input_bytes ≢ 0) × (t.max_output_bytes ≢ 0)

-- The tools that the first loop has seen at its end.
abbrev all_seen : List ToolName → List ToolDefinition → List ToolName
all_seen seen [] = seen
all_seen seen (t ∷ ts) = all_seen (t.name ∷ seen) ts

check_tools_sound :
    (seen : List ToolName) (ts : List ToolDefinition) (s : List ToolName)
    → check_tools seen ts ≡ ok s
    → Fresh seen (names_of ts) × All IsBounded ts × (s ≡ all_seen seen ts)
unfolding check_tools
check_tools_sound seen [] s h = (tt, tt, ground arith)
check_tools_sound seen (t ∷ ts) s h = ground (arith, check_tools_sound (t.name ∷ seen) ts s)

check_tools_complete :
    (seen : List ToolName) (ts : List ToolDefinition)
    → Fresh seen (names_of ts)
    → All IsBounded ts
    → check_tools seen ts ≡ ok (all_seen seen ts)
unfolding check_tools
check_tools_complete seen [] f b = refl
check_tools_complete seen (t ∷ ts) f b =
    ground (arith, check_tools_complete (t.name ∷ seen) ts f.1 b.1)

check_required_iff :
    (seen names : List ToolName)
    → (check_required seen names ≡ ok tt) ↔ All (λ n. mem n seen ≡ true) names
unfolding check_required
check_required_iff seen [] = (λ h. tt, λ h. refl)
check_required_iff seen (n ∷ ns) = ground (arith, check_required_iff seen ns)

mem-all_seen :
    (n : ToolName) (seen : List ToolName) (ts : List ToolDefinition)
    → mem n (all_seen seen ts) ≡ (mem n (names_of ts) || mem n seen)
mem-all_seen n seen [] = refl
mem-all_seen n seen (t ∷ ts) = ground (arith, mem-all_seen n (t.name ∷ seen) ts)

mem-all_tools : (n : ToolName) → mem n all_tools ≡ true
mem-all_tools n = ground arith

-- Every tool of the enum stands in the list.
abbrev IsComplete : List ToolDefinition → Type 0
IsComplete ts = (n : ToolName) → mem n (names_of ts) ≡ true

pub record IsRegistry (r : ToolRegistry) : Type 0 where
  pub version : r.version ≡ protocol_version
  pub distinct : Distinct (names_of r.tools)
  pub bounded : All IsBounded r.tools
  pub complete : IsComplete r.tools

IsComplete-sound :
    (ts : List ToolDefinition) → check_required (all_seen [] ts) all_tools ≡ ok tt → IsComplete ts
IsComplete-sound ts h n =
    let seen =
      mem-All (λ k. mem k (all_seen [] ts) ≡ true) n all_tools (mem-all_tools n)
        ((check_required_iff (all_seen [] ts) all_tools).0 h) in
    ground (arith, mem-all_seen n [] ts)

complete_list :
    (ts : List ToolDefinition) (names : List ToolName)
    → IsComplete ts
    → All (λ k. mem k (all_seen [] ts) ≡ true) names
complete_list ts [] c = tt
complete_list ts (n ∷ ns) c = (ground (arith, c n, mem-all_seen n [] ts), complete_list ts ns c)

-- A registry is complete, as `validate_complete_required_set` tests it, exactly if its version is sentia.v1, no tool is
-- registered twice, each takes and returns at least one byte, and all 42 tools are there.
pub validate_complete_required_set_iff :
    (r : ToolRegistry) → (validate_complete_required_set r ≡ ok tt) ↔ IsRegistry r
unfolding validate_complete_required_set
validate_complete_required_set_iff r = (
  λ h.
      let (v, h1) = then-eq-ok (ensure (text_beq r.version protocol_version) _ _) _ h in
      let (seen, e, h2) = bind-eq-ok (check_tools [] r.tools) _ h1 in
      let (fresh, bounds, s) = check_tools_sound [] r.tools seen e in
      record {
        version = (text_beq_iff _ _).0 ((ensure_iff _ _ _).0 v);
        distinct = Fresh-Distinct [] (names_of r.tools) fresh;
        bounded = bounds;
        complete = IsComplete-sound r.tools (subst (λ x. check_required x all_tools ≡ ok tt) s h2);
      },
  λ i.
      let fresh = Distinct-Fresh [] (names_of r.tools) (none_seen (names_of r.tools)) i.distinct in
      rw ((text_beq_iff r.version protocol_version).1 i.version) (
        rw (check_tools_complete [] r.tools fresh i.bounded) (
          (check_required_iff (all_seen [] r.tools) all_tools).1
            (complete_list r.tools all_tools i.complete))),
)
