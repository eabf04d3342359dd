-- ===== src/Health/Alert/Log.antt =====
-- The alert log keeps the latest records (alert.rs, push_record).
use sentia_linux.Base.{
  ℕ, zero, suc, ◌-◌, ◌≤◌, ◌<◌, ◌≡◌, refl, sym, ap, ◌∙◌, List, [], ◌∷◌, ◌++◌, arith, ◌==◌, leb,
  length, drop, length-append, length-drop, inl, inr, Bool-cases, append-nil, append_assoc,
}
use sentia_linux.Health.Floats.{Floats}
use sentia_linux.Health.Alert.{AlertRecord, push_record}

-- The last `n` elements.
abbrev pub last_n : {A : Type 0} → ℕ → List A → List A
last_n n xs = drop (length xs - n) xs

drop-append_le :
    {A : Type 0} (n : ℕ) (xs ys : List A) → n ≤ length xs → drop n (xs ++ ys) ≡ drop n xs ++ ys
drop-append_le zero xs ys h = refl
drop-append_le (suc n) [] ys h = absurd (omega arith)
drop-append_le (suc n) (x ∷ xs) ys h = drop-append_le n xs ys (omega arith)

drop-suc : {A : Type 0} (n : ℕ) (xs : List A) → drop 1 (drop n xs) ≡ drop (suc n) xs
drop-suc zero xs = refl
drop-suc (suc n) [] = refl
drop-suc (suc n) (x ∷ xs) = drop-suc n xs

drop_all : {A : Type 0} (n : ℕ) (xs : List A) → n ≡ length xs → drop n xs ≡ []
drop_all zero [] h = refl
drop_all zero (x ∷ xs) h = absurd (omega arith)
drop_all (suc n) [] h = refl
drop_all (suc n) (x ∷ xs) h = drop_all n xs (omega arith)

nothing_over : (n m : ℕ) → n ≤ m → n - m ≡ 0
nothing_over n m h = omega arith

one_more : (n m k : ℕ) → m ≤ n → k ≡ suc n → suc (n - m) ≡ k - m
one_more n m k h e = omega arith

module _ (f : Floats) where
  -- A record pushed onto a full or a partly filled log leaves the latest records.
  last_n-full :
      (most : ℕ) (rs : List (AlertRecord f)) (r : AlertRecord f)
      → 0 < most
      → most ≤ length rs
      → drop 1 (last_n most rs) ++ r ∷ [] ≡ last_n most (rs ++ r ∷ [])
  last_n-full most rs r h k =
      ap (λ xs. xs ++ r ∷ []) (drop-suc (length rs - most) rs)
      ∙ sym (drop-append_le (suc (length rs - most)) rs (r ∷ []) (omega arith))
      ∙ ap (λ n. drop n (rs ++ r ∷ []))
          (one_more (length rs) most (length (rs ++ r ∷ [])) k
            (omega (arith, length-append rs (r ∷ []))))

  last_n-room :
      (most : ℕ) (rs : List (AlertRecord f)) (r : AlertRecord f)
      → length rs < most
      → last_n most rs ++ r ∷ [] ≡ last_n most (rs ++ r ∷ [])
  last_n-room most rs r h =
      ap (λ n. drop n rs ++ r ∷ []) (nothing_over (length rs) most (omega arith))
      ∙ ap (λ n. drop n (rs ++ r ∷ []))
          (sym
            (nothing_over (length (rs ++ r ∷ [])) most (omega (arith, length-append rs (r ∷ [])))))

  push_record-last_n :
      (most : ℕ) (rs : List (AlertRecord f)) (r : AlertRecord f)
      → push_record f most (last_n most rs) r ≡ last_n most (rs ++ r ∷ [])
  unfolding push_record
  push_record-last_n most rs r = elim (Bool-cases (most == 0)) [
    | inl zero_sized ↦ rw zero_sized (
        drop_all _ rs (ground arith)
        ∙ sym (drop_all _ (rs ++ r ∷ []) (ground (arith, length-append rs (r ∷ [])))))
    | inr sized ↦ elim (Bool-cases (leb most (length (last_n most rs)))) [
      | inl full ↦ rw sized (
          rw full (
            last_n-full most rs r (ground arith)
              (ground (arith, length-drop (length rs - most) rs))))
      | inr room ↦
          rw sized
            (rw room (last_n-room most rs r (ground (arith, length-drop (length rs - most) rs))))
    ]
  ]

  pub push_all : ℕ → List (AlertRecord f) → List (AlertRecord f) → List (AlertRecord f)
  push_all most log [] = log
  push_all most log (r ∷ rs) = push_all most (push_record f most log r) rs

  push_all_from :
      (most : ℕ) (old rs : List (AlertRecord f))
      → push_all most (last_n most old) rs ≡ last_n most (old ++ rs)
  unfolding push_all
  push_all_from most old [] = ap (last_n most) (sym (append-nil old))
  push_all_from most old (r ∷ rs) =
      ap (λ log. push_all most log rs) (push_record-last_n most old r)
      ∙ push_all_from most (old ++ r ∷ []) rs
      ∙ ap (last_n most) (append_assoc old (r ∷ []) rs)

  -- Whatever records were pushed onto an empty log of capacity `most`, it holds the latest `most` of
  -- them (or all, if there are no more), in order; a log of capacity 0 stays empty.
  pub push_all-last_n :
      (most : ℕ) (rs : List (AlertRecord f)) → push_all most [] rs ≡ last_n most rs
  push_all-last_n most rs =
      ap (λ log. push_all most log rs) (sym (drop_all (0 - most) [] (omega arith)))
      ∙ push_all_from most [] rs
