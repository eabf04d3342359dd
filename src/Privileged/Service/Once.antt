-- ===== src/Privileged/Service/Once.antt =====
-- Histories of the D-Bus methods: after a use of an id, none has an effect (service.rs).
use sentia_linux.Base.{
  ℕ, ◌≡◌, sym, ◌∙◌, ◌≢◌, inl, inr, Option, none, some, List, [], ◌∷◌, Text, lookup, text_eq, Result,
  All,
}
use sentia_linux.Privileged.Operation.{Error, Operation}
use sentia_linux.Privileged.Json.{Json}
use sentia_linux.Privileged.Broker.{Prepared, PlanStore, Digests}
use sentia_linux.Privileged.Broker.Spent.{Avoids, consume-unknown}
use sentia_linux.Privileged.Service.{PrepareAnswers, ApplyAnswers, handle_prepare, handle_apply}
use sentia_linux.Privileged.Service.Store.{handle_apply-store, handle_prepare-unknown}
use sentia_linux.Privileged.Service.Gate.{handle_apply-Gated}

-- A call of a method, with the answers of the system to it.
pub data Request (j : Json) : Type 0 where
  prepares : (answers : PrepareAnswers j) (request : Text) → Request j
  applies : (answers : ApplyAnswers j) (id digest : Text) → Request j

-- The random bytes of a Prepare do not make the id.
abbrev pub RequestAvoids : {j : Json} → Text → Request j → Type 0
RequestAvoids id (prepares a request) = Avoids id a.entropy
RequestAvoids id (applies a other digest) = Unit

none-ne-some : {A : Type 0} {a : A} → ◌≡◌ {A = Option A} none (some a) → ⊥
none-ne-some h = cc

module _ (j : Json) (digests : Digests j.Value) (utc_timestamp : ℕ → Result Error Text)
    (print : Prepared j.Value → Option Text) (parse : Text → Option (ℕ × Operation)) where
  open j use {Value}

  pub serve : PlanStore Value → Request j → PlanStore Value
  serve store (prepares a request) =
      (handle_prepare j digests utc_timestamp print a parse store request).store
  serve store (applies a id digest) = (handle_apply j digests utc_timestamp a store id digest).store

  pub serve_all : PlanStore Value → List (Request j) → PlanStore Value
  unfolding serve
  serve_all store [] = store
  serve_all store (r ∷ rs) = serve_all (serve store r) rs

  serve-unknown :
      (store : PlanStore Value) (r : Request j) (id : Text)
      → RequestAvoids id r
      → lookup id store.plans ≡ none
      → lookup id (serve store r).plans ≡ none
  unfolding serve
  serve-unknown store (prepares a request) id free h =
      handle_prepare-unknown j digests utc_timestamp print a parse store request id free h
  serve-unknown store (applies a other digest) id free h =
      handle_apply-store j digests utc_timestamp (λ s. lookup id s.plans ≡ none) a store other
        digest h (λ caller now. consume-unknown store other digest caller now id h)

  serve_all-unknown :
      (store : PlanStore Value) (rs : List (Request j)) (id : Text)
      → All (RequestAvoids id) rs
      → lookup id store.plans ≡ none
      → lookup id (serve_all store rs).plans ≡ none
  unfolding serve_all
  serve_all-unknown store [] id free h = h
  serve_all-unknown store (r ∷ rs) id (first, free) h =
      serve_all-unknown (serve store r) rs id free (serve-unknown store r id first h)

  apply_unknown :
      (b : ApplyAnswers j) (store : PlanStore Value) (id digest : Text)
      → lookup id store.plans ≡ none
      → (handle_apply j digests utc_timestamp b store id digest).effects ≡ []
  apply_unknown b store id digest unknown =
      elim (handle_apply-Gated j digests utc_timestamp b store id digest) [
        | inl nothing ↦ nothing
        | inr g ↦ absurd (none-ne-some (sym unknown ∙ g.consumed.stored))
      ]

  -- An id serves one Apply: once Apply has done anything to the system, be it only to look at the
  -- target, no later Apply on the same id does, whatever its digest, its sender and the answers of
  -- the system, and whatever calls of Prepare and Apply there were in between, as long as no Prepare
  -- among them draws random bytes that make the same id.
  pub handle_apply_once :
      (a b : ApplyAnswers j) (store : PlanStore Value) (rs : List (Request j))
      (id digest digest' : Text)
      → (handle_apply j digests utc_timestamp a store id digest).effects ≢ []
      → All (RequestAvoids id) rs
      → (handle_apply j digests utc_timestamp b
          (serve_all (handle_apply j digests utc_timestamp a store id digest).store rs)
          id
          digest').effects
        ≡ []
  handle_apply_once a b store rs id digest digest' had free =
      elim (handle_apply-Gated j digests utc_timestamp a store id digest) [
        | inl nothing ↦ absurd (had nothing)
        | inr g ↦
            apply_unknown b
              (serve_all (handle_apply j digests utc_timestamp a store id digest).store rs) id
              digest'
              (serve_all-unknown (handle_apply j digests utc_timestamp a store id digest).store rs
                id free g.used_up)
      ]
