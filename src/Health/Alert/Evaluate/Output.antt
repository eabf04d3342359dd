-- ===== src/Health/Alert/Evaluate/Output.antt =====
-- What a pass over a snapshot returns (alert.rs, AlertEngine::evaluate): the active alerts, each once
-- and in the order of their ids.
use sentia_linux.Base.{
  suc, ◌∙◌, text_leb, text_leb_total, text_leb_trans, Bool-cases, inl, inr, ◌≡◌, refl, true, List,
  [], ◌∷◌, arith, Text, length, All, count_if,
}
use sentia_linux.Health.Floats.{Floats}
use sentia_linux.Health.Alert.{ConditionState, AlertRecord, AlertEngine, record_of}
use sentia_linux.Health.Alert.Evaluate.{
  Snapshot, conditions, eval_all, evaluate, active_records, insert_sorted, sort_by_id,
}

module _ (f : Floats) where
  -- Every id is at most the ids after it.
  abbrev pub IsSorted : List (AlertRecord f) → Type 0
  IsSorted [] = Unit
  IsSorted (r ∷ rs) = All (λ q. text_leb r.id q.id ≡ true) rs × IsSorted rs

  All-insert_sorted :
      (P : AlertRecord f → Type 0) (r : AlertRecord f) (rs : List (AlertRecord f))
      → P r
      → All P rs
      → All P (insert_sorted f r rs)
  unfolding insert_sorted
  All-insert_sorted P r [] h k = (h, k)
  All-insert_sorted P r (q ∷ qs) h k = ground (arith, All-insert_sorted P r qs h k.1)

  All-text_leb :
      (r q : AlertRecord f) (qs : List (AlertRecord f))
      → text_leb r.id q.id ≡ true
      → All (λ p. text_leb q.id p.id ≡ true) qs
      → All (λ p. text_leb r.id p.id ≡ true) qs
  All-text_leb r q [] h k = tt
  All-text_leb r q (p ∷ ps) h k = (text_leb_trans r.id q.id p.id h k.0, All-text_leb r q ps h k.1)

  insert_sorted-IsSorted :
      (r : AlertRecord f) (rs : List (AlertRecord f))
      → IsSorted rs
      → IsSorted (insert_sorted f r rs)
  unfolding insert_sorted
  insert_sorted-IsSorted r [] h = (tt, tt)
  insert_sorted-IsSorted r (q ∷ qs) h = elim (Bool-cases (text_leb r.id q.id)) [
    | inl before ↦ ground (arith, All-text_leb r q qs before h.0)
    | inr after ↦ ground (
      arith,
      All-insert_sorted (λ p. text_leb q.id p.id ≡ true) r qs (text_leb_total r.id q.id after) h.0,
      insert_sorted-IsSorted r qs h.1,
    )
  ]

  length-insert_sorted :
      (r : AlertRecord f) (rs : List (AlertRecord f))
      → length (insert_sorted f r rs) ≡ suc (length rs)
  unfolding insert_sorted
  length-insert_sorted r [] = refl
  length-insert_sorted r (q ∷ qs) = ground (arith, length-insert_sorted r qs)

  sort_by_id-All :
      (P : AlertRecord f → Type 0) (rs : List (AlertRecord f)) → All P rs → All P (sort_by_id f rs)
  unfolding sort_by_id
  sort_by_id-All P [] h = h
  sort_by_id-All P (r ∷ rs) h =
      All-insert_sorted P r (sort_by_id f rs) h.0 (sort_by_id-All P rs h.1)

  sort_by_id-IsSorted : (rs : List (AlertRecord f)) → IsSorted (sort_by_id f rs)
  unfolding sort_by_id
  sort_by_id-IsSorted [] = tt
  sort_by_id-IsSorted (r ∷ rs) = insert_sorted-IsSorted r (sort_by_id f rs) (sort_by_id-IsSorted rs)

  length-sort_by_id : (rs : List (AlertRecord f)) → length (sort_by_id f rs) ≡ length rs
  unfolding sort_by_id
  length-sort_by_id [] = refl
  length-sort_by_id (r ∷ rs) =
      omega (arith, length-insert_sorted r (sort_by_id f rs), length-sort_by_id rs)

  active_records-IsActive :
      (states : List (Text × ConditionState f))
      → All (λ r. r.active ≡ true) (active_records f states)
  unfolding active_records record_of
  active_records-IsActive [] = tt
  active_records-IsActive ((id, s) ∷ states) = ground (arith, active_records-IsActive states)

  length-active_records :
      (states : List (Text × ConditionState f))
      → length (active_records f states) ≡ count_if (λ p. p.1.active) states
  unfolding active_records
  length-active_records [] = refl
  length-active_records ((id, s) ∷ states) = ground (arith, length-active_records states)

  -- What a pass returns are active alerts, sorted by id, as many as the engine has active
  -- conditions after the pass.
  pub evaluate-active :
      (e : AlertEngine f) (s : Snapshot f)
      → IsSorted (evaluate f e s).1
        × All (λ r. r.active ≡ true) (evaluate f e s).1
        × length (evaluate f e s).1 ≡ count_if (λ p. p.1.active) (evaluate f e s).0.states
  unfolding evaluate
  evaluate-active e s =
      let states = (eval_all f e (conditions f s) s.collected_at_unix_ms).states in
      (
        sort_by_id-IsSorted (active_records f states),
        sort_by_id-All (λ r. r.active ≡ true) (active_records f states)
            (active_records-IsActive states),
        length-sort_by_id (active_records f states) ∙ length-active_records states,
      )
