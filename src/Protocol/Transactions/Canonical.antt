-- ===== src/Protocol/Transactions/Canonical.antt =====
-- The canonical form of a transaction plan.
use mathlib.Core.List.{Permᴰ}
use sentia_linux.Base.{
  ◌≡◌, refl, Bool, true, false, Option, none, some, List, [], ◌∷◌, Text, arith, text_beq_iff,
  text_leb_total, sort_texts, sort_texts-perm, sort_texts_idem, is_empty, Result, insert_text,
}
use sentia_linux.Protocol.Transactions.{
  PackageDelta, ServiceDelta, CanonicalTransactionPlan, validate_plan, option_leb, package_leb,
  service_leb, insert_by, sort_by, canonicalized, canonical_json,
}

-- Sorting by an order in which any two elements compare.
module _ {A : Type 0} (leq : A → A → Bool)
    (total : (a b : A) → leq a b ≡ false → leq b a ≡ true) where
  abbrev IsSorted : List A → Type 0
  IsSorted [] = Unit
  IsSorted (x ∷ []) = Unit
  IsSorted (x ∷ y ∷ l) = (leq x y ≡ true) × IsSorted (y ∷ l)

  insert_by-IsSorted : (x : A) (l : List A) → IsSorted l → IsSorted (insert_by leq x l)
  unfolding insert_by
  insert_by-IsSorted x [] s = tt
  insert_by-IsSorted x (y ∷ []) s = ground (arith, total x y)
  insert_by-IsSorted x (y ∷ z ∷ l) s = ground (arith, total x y, insert_by-IsSorted x (z ∷ l) s.1)

  sort_by-IsSorted : (l : List A) → IsSorted (sort_by leq l)
  unfolding sort_by
  sort_by-IsSorted [] = tt
  sort_by-IsSorted (x ∷ l) = insert_by-IsSorted x (sort_by leq l) (sort_by-IsSorted l)

  sort_by-sorted : (l : List A) → IsSorted l → sort_by leq l ≡ l
  unfolding sort_by insert_by
  sort_by-sorted [] s = refl
  sort_by-sorted (x ∷ []) s = refl
  sort_by-sorted (x ∷ y ∷ l) s = rw (sort_by-sorted (y ∷ l) s.1, s.0)

  sort_by_idem : (l : List A) → sort_by leq (sort_by leq l) ≡ sort_by leq l
  sort_by_idem l = sort_by-sorted (sort_by leq l) (sort_by-IsSorted l)

option_leb_total : (a b : Option Text) → option_leb a b ≡ false → option_leb b a ≡ true
option_leb_total none b h = absurd (ground arith)
option_leb_total (some a) none h = refl
option_leb_total (some a) (some b) h = text_leb_total a b h

package_leb_total : (a b : PackageDelta) → package_leb a b ≡ false → package_leb b a ≡ true
package_leb_total a b h = ground (
  arith,
  text_beq_iff a.package_name b.package_name,
  text_beq_iff b.package_name a.package_name,
  text_leb_total a.package_name b.package_name,
  option_leb_total a.to_version b.to_version,
)

service_leb_total : (a b : ServiceDelta) → service_leb a b ≡ false → service_leb b a ≡ true
service_leb_total a b h = ground (
  arith,
  text_beq_iff a.service b.service,
  text_beq_iff b.service a.service,
  text_leb_total a.service b.service,
  text_leb_total a.action b.action,
)

is_empty-insert_by :
    {A : Type 0} (leq : A → A → Bool) (x : A) (l : List A) → is_empty (insert_by leq x l) ≡ false
unfolding insert_by
is_empty-insert_by leq x [] = refl
is_empty-insert_by leq x (y ∷ l) = ground arith

is_empty-sort_by :
    {A : Type 0} (leq : A → A → Bool) (l : List A) → is_empty (sort_by leq l) ≡ is_empty l
unfolding sort_by
is_empty-sort_by leq [] = refl
is_empty-sort_by leq (x ∷ l) = is_empty-insert_by leq x (sort_by leq l)

is_empty-insert_text : (s : Text) (ts : List Text) → is_empty (insert_text s ts) ≡ false
is_empty-insert_text s [] = refl
is_empty-insert_text s (t ∷ ts) = ground arith

is_empty-sort_texts : (ts : List Text) → is_empty (sort_texts ts) ≡ is_empty ts
is_empty-sort_texts [] = refl
is_empty-sort_texts (t ∷ ts) = is_empty-insert_text t (sort_texts ts)

is_empty-perm : {ss ts : List Text} → Permᴰ ss ts → is_empty ss ≡ is_empty ts
is_empty-perm {ss} {ts} p = cc (is_empty-sort_texts ss, is_empty-sort_texts ts, sort_texts-perm p)

canonicalized_idem :
    (p : CanonicalTransactionPlan) → canonicalized (canonicalized p) ≡ canonicalized p
unfolding canonicalized
canonicalized_idem p = cc (
  sort_texts_idem p.requested_targets,
  sort_texts_idem p.unknown_effects,
  sort_by_idem package_leb package_leb_total p.package_changes,
  sort_by_idem service_leb service_leb_total p.service_changes,
)

validate_plan-canonicalized :
    (p : CanonicalTransactionPlan) → validate_plan (canonicalized p) ≡ validate_plan p
unfolding canonicalized validate_plan
validate_plan-canonicalized p =
    rw
      (
        is_empty-sort_texts p.requested_targets,
        is_empty-sort_by package_leb p.package_changes,
        is_empty-sort_by service_leb p.service_changes,
      )
      refl

-- A plan with other lists of targets and of unknown effects.
abbrev pub reordered : CanonicalTransactionPlan → List Text → List Text → CanonicalTransactionPlan
reordered p targets effects = record p { requested_targets = targets; unknown_effects = effects }

canonicalized-reordered :
    (p : CanonicalTransactionPlan) {targets effects : List Text}
    → Permᴰ targets p.requested_targets
    → Permᴰ effects p.unknown_effects
    → canonicalized (reordered p targets effects) ≡ canonicalized p
unfolding canonicalized
canonicalized-reordered p t e = cc (sort_texts-perm t, sort_texts-perm e)

validate_plan-reordered :
    (p : CanonicalTransactionPlan) {targets : List Text} (effects : List Text)
    → Permᴰ targets p.requested_targets
    → validate_plan (reordered p targets effects) ≡ validate_plan p
unfolding validate_plan
validate_plan-reordered p effects t = rw (is_empty-perm t) refl

-- The canonical JSON of a plan (or its error) does not depend on the order in which the targets and
-- the unknown effects are listed, and the canonical form of a plan has the same canonical JSON as
-- the plan.
pub canonical_json_stable :
    (to_string : CanonicalTransactionPlan → Result Text Text) (p : CanonicalTransactionPlan)
    {targets effects : List Text}
    → Permᴰ targets p.requested_targets
    → Permᴰ effects p.unknown_effects
    → (canonical_json to_string (reordered p targets effects) ≡ canonical_json to_string p)
      × (canonical_json to_string (canonicalized p) ≡ canonical_json to_string p)
unfolding canonical_json
canonical_json_stable to_string p {targets} {effects} t e = (
  rw (validate_plan-reordered p effects t) (rw (canonicalized-reordered p t e) refl),
  rw (validate_plan-canonicalized p) (rw (canonicalized_idem p) refl),
)
