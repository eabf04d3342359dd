-- ===== src/Router/Tools/Guarded.antt =====
-- Which calls of tools reach the tool service.
use sentia_linux.Base.{
  Option, Bool, true, sym, ◌≢◌, ◌∷◌, ◌++◌, any, contains, to_ascii_lowercase, mem-All,
  contains-append, true_or_false, ◌≤◌, ◌≡◌, refl, ap, ◌∙◌, false, ◌||◌, not, none, some, List, [],
  Text, codes, arith, ltb, mem, All, is_empty, Result, ok, reject, reject-eq-ok, ok_or, ok_or-eq-ok,
  then-eq-ok, bind-eq-ok, or_false, within, Result-cases, inl, inr, ok-injective, text_eq, subst,
  length,
}
use sentia_linux.Router.Redaction.{len}
use sentia_linux.Router.Values.{Value}
use sentia_linux.Router.Schemas.{
  ToolError, unknown, invalid_arguments, unavailable, validate_schema,
}
use sentia_linux.Router.Tools.{
  max_tool_argument_bytes, ToolClass, read_only, ModelToolDefinition, ModelToolResult, ToolCall,
  is_read_only, path_argument, names_forbidden, forbidden_tool_path, forbidden_needles, Invocation,
  find_definition, parsed, admitted_arguments, bounded_result, invoke_admitted, validate_and_invoke,
}

-- The path, in lower case, holds no forbidden fragment.
abbrev pub NamesNone : Option Text → Type 0
NamesNone o =
    (path needle before after : Text)
    → o ≡ some path
    → mem needle forbidden_needles ≡ true
    → to_ascii_lowercase path ≢ before ++ (needle ++ after)

any-false : (p : Text → Bool) (l : List Text) → any p l ≡ false → All (λ t. p t ≡ false) l
any-false p [] h = tt
any-false p (t ∷ l) h =
    let (first, rest) = or_false (p t) (any p l) h in (first, any-false p l rest)

names_forbidden-NamesNone : (o : Option Text) → names_forbidden o ≡ false → NamesNone o
unfolding names_forbidden forbidden_tool_path
names_forbidden-NamesNone none h path needle before after e listed same = absurd (cc)
names_forbidden-NamesNone (some p) h path needle before after e listed same =
    let lower = to_ascii_lowercase p in
    let absent =
      mem-All (λ n. contains lower n ≡ false) needle forbidden_needles listed
        (any-false (contains lower) forbidden_needles h) in
    let path_same : p ≡ path = ground (arith, e) in
    true_or_false _
      (subst (λ t. contains t needle ≡ true) (sym (ap to_ascii_lowercase path_same ∙ same))
        (contains-append before needle after))
      absent

module _ (from_str : Text → Result Text Value)
    (invoke : Text → Text → Value → Result ToolError ModelToolResult)
    (definitions : List ModelToolDefinition) where
  -- A call that may be made: it is new and within bounds, its tool is defined as one that only
  -- reads, its arguments fit the schema, and its path holds no forbidden fragment.
  pub record IsAdmitted (call : ToolCall) (seen : List Text) (i : Invocation) : Type 0 where
    pub same : (i.call_id ≡ call.id) × (i.tool ≡ call.name)
    pub new : mem call.id seen ≡ false
    pub sized : (is_empty call.id ≡ false) × (len call.id ≤ 64) × (len call.arguments ≤ 65536)
    pub definition : ModelToolDefinition
    pub defined : find_definition definitions call.name ≡ some definition
    pub reads : definition.class ≡ read_only
    pub parses : from_str call.arguments ≡ ok i.arguments
    pub conforms : validate_schema definition.input_schema i.arguments ≡ ok tt
    pub apart : NamesNone (path_argument i.arguments)

  parsed-eq-ok : (r : Result Text Value) (v : Value) → parsed r ≡ ok v → r ≡ ok v
  unfolding parsed
  parsed-eq-ok r v h = ground arith

  is_read_only-eq : (c : ToolClass) → not (is_read_only c) ≡ false → c ≡ read_only
  is_read_only-eq c h = ground arith

  sizes :
      (id arguments : Text)
      → (is_empty id || ltb 64 (len id) || ltb 65536 (len arguments)) ≡ false
      → (is_empty id ≡ false) × (len id ≤ 64) × (len arguments ≤ 65536)
  sizes id arguments h =
      let (r, c) = or_false (is_empty id || ltb 64 (len id)) (ltb 65536 (len arguments)) h in
      let (a, b) = or_false (is_empty id) (ltb 64 (len id)) r in
      (a, within 64 (len id) b, within 65536 (len arguments) c)

  admitted_arguments-IsAdmitted :
      (call : ToolCall) (seen : List Text) (v : Value)
      → admitted_arguments from_str invoke definitions call (mem call.id seen) ≡ ok v
      → IsAdmitted call seen (record { call_id = call.id; tool = call.name; arguments = v })
  unfolding admitted_arguments
  admitted_arguments-IsAdmitted call seen v h =
      let (n, h1) =
        then-eq-ok
          (reject (mem call.id seen) (invalid_arguments (codes "duplicate tool call identifier"))) _
          h in
      let (s, h2) =
        then-eq-ok
          (reject
            (is_empty call.id
              || ltb 64 (len call.id)
              || ltb max_tool_argument_bytes (len call.arguments))
            (invalid_arguments (codes "tool call identifier or arguments exceed protocol bounds")))
          _ h1 in
      let (d, e, h3) = bind-eq-ok (ok_or (find_definition definitions call.name) unknown) _ h2 in
      let (r, h4) =
        then-eq-ok
          (reject (not (is_read_only d.class)) (
            unavailable (
              codes
                "action proposals require a separate user approval through the privileged broker")))
          _ h3 in
      let (a, p, h5) = bind-eq-ok (parsed (from_str call.arguments)) _ h4 in
      let (c, h6) = then-eq-ok (validate_schema d.input_schema a) _ h5 in
      let (f, o) =
        then-eq-ok
          (reject (names_forbidden (path_argument a)) (
            unavailable
              (codes "credential and private-state paths are not available to the model")))
          _ h6 in
      let same_arguments = ok-injective o in
      record {
        same = (refl, refl);
        new = reject-eq-ok (mem call.id seen) _ n;
        sized = sizes call.id call.arguments (reject-eq-ok _ _ s);
        definition = d;
        defined = ok_or-eq-ok _ _ e;
        reads = is_read_only-eq d.class (reject-eq-ok _ _ r);
        parses = parsed-eq-ok (from_str call.arguments) a p ∙ ap ok same_arguments;
        conforms = subst (λ x. validate_schema d.input_schema x ≡ ok tt) same_arguments c;
        apart = names_forbidden-NamesNone (path_argument v) (
            subst (λ x. names_forbidden (path_argument x) ≡ false) same_arguments
              (reject-eq-ok _ _ f));
      }

  bounded-eq-ok :
      (answer : Result ToolError ModelToolResult) (r : ModelToolResult)
      → bounded_result answer ≡ ok r
      → len r.content ≤ 262144
  unfolding bounded_result
  bounded-eq-ok answer r h = ground arith

  -- What was called, and a bound on the answer.
  abbrev pub IsGuardedCall :
      ToolCall → List Text → List Invocation × Result ToolError ModelToolResult → Type 0
  IsGuardedCall call seen (made, answer) =
      (length made ≤ 1)
      × All (IsAdmitted call seen) made
      × ((r : ModelToolResult) → answer ≡ ok r → (length made ≡ 1) × (len r.content ≤ 262144))

  -- Whatever tools are defined and however the service answers: at most one call of the service is
  -- made for a call by the model. It has the identifier and the tool of the model's call, the
  -- identifier is not empty, has at most 64 bytes and is new, the tool is defined as one that only
  -- reads, and the arguments are those that the model's text (at most 65536 bytes) parses to, which
  -- pass the schema of the definition. Their `path`, where it is a text, holds in lower case none of
  -- the fragments of `forbidden_needles` (such as "/.ssh/" and "/etc/shadow") at any place. A result
  -- is returned only after a call, and has at most 262144 bytes.
  pub validate_and_invoke-IsGuardedCall :
      (call : ToolCall) (seen : List Text)
      → IsGuardedCall call seen (validate_and_invoke from_str invoke definitions call seen)
  unfolding validate_and_invoke invoke_admitted
  validate_and_invoke-IsGuardedCall call seen =
      elim (Result-cases (admitted_arguments from_str invoke definitions call (mem call.id seen))) [
        | inl (v, e) ↦ rw e (
          omega arith,
          (admitted_arguments-IsAdmitted call seen v e, tt),
          λ r h. (omega arith, bounded-eq-ok (invoke call.id call.name v) r h),
        )
        | inr (f, e) ↦ rw e (omega arith, tt, λ r h. absurd (cc h))
      ]

  -- Without a definition there is no call.
  pub validate_and_invoke_undefined :
      (call : ToolCall) (seen : List Text)
      → find_definition definitions call.name ≡ none
      → (validate_and_invoke from_str invoke definitions call seen).0 ≡ []
  unfolding validate_and_invoke invoke_admitted
  validate_and_invoke_undefined call seen n =
      elim (Result-cases (admitted_arguments from_str invoke definitions call (mem call.id seen))) [
        | inl (v, e) ↦ absurd (cc (n, (admitted_arguments-IsAdmitted call seen v e).defined))
        | inr (f, e) ↦ rw e refl
      ]
