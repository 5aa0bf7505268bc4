-- ===== src/Horizon/Checks/Exact.antt =====
-- Each check succeeds exactly when the property that it is named for holds of the receipts.
use substreams_data_service.Common.{
  ℕ, ◌<◌, ◌≡◌, ◌≢◌, ◌↔◌, refl, List, [], ◌∷◌, some, true, false, All, Bytes, arith, Option-cases,
  inl, inr, bytes_equal, bytes_equal_iff, length,
}
use mathlib.Core.Path.{subst}
use substreams_data_service.Common.{ap, ◌∙◌}
use substreams_data_service.Common.Digits.{AreBytes}
use substreams_data_service.Common.Go.{ok}
use substreams_data_service.Horizon.Signature.Canonical.{canonical, normalize_signature-canonical}
use substreams_data_service.Horizon.Types.{Address, Receipt, SignedReceipt}
use substreams_data_service.Horizon.Signature.{normalize_signature}
use substreams_data_service.Horizon.Checks.{
  seen_before, same_bytes, addresses_equal, unique_from, check_signatures_unique, timestamps_after,
  Parties, receipt_parties, compare_parties, consistent_with,
}

same_bytes-eq : (a b : Address) → length a ≡ length b → same_bytes a b ≡ bytes_equal a b
unfolding same_bytes bytes_equal
same_bytes-eq [] [] h = refl
same_bytes-eq [] (y ∷ b) h = ground arith
same_bytes-eq (x ∷ a) [] h = ground arith
same_bytes-eq (x ∷ a) (y ∷ b) h = ground (arith, same_bytes-eq a b)

-- The comparison loop decides equality.
pub addresses_equal_iff : (a b : Address) → (addresses_equal a b ≡ true) ↔ (a ≡ b)
unfolding addresses_equal
addresses_equal_iff a b = ground (arith, same_bytes-eq a b, bytes_equal_iff a b)

pub compare_parties_iff : (a b : Parties) → (compare_parties a b ≡ ok tt) ↔ (a ≡ b)
unfolding compare_parties
compare_parties_iff a b = ground (
  arith,
  bytes_equal_iff a.collection_id b.collection_id,
  addresses_equal_iff a.payer b.payer,
  addresses_equal_iff a.service_provider b.service_provider,
  addresses_equal_iff a.data_service b.data_service,
)

-- No two of them are equal.
abbrev pub Distinct : List Bytes → Type 0
Distinct [] = Unit
Distinct (x ∷ xs) = All (λ y. y ≢ x) xs × Distinct xs

abbrev pub normal_forms : List SignedReceipt → List Bytes
normal_forms [] = []
normal_forms (r ∷ rs) = normalize_signature r.signature ∷ normal_forms rs

seen_before_iff :
    (k : Bytes) (seen : List Bytes) → (seen_before k seen ≡ false) ↔ All (λ y. k ≢ y) seen
unfolding seen_before
seen_before_iff k [] = ground arith
seen_before_iff k (x ∷ seen) = ground (arith, seen_before_iff k seen, bytes_equal_iff x k)

-- None of `xs` has been seen.
abbrev Unseen : List Bytes → List Bytes → Type 0
Unseen seen xs = All (λ x. All (λ y. x ≢ y) seen) xs

Unseen-cons :
    (x : Bytes) (seen xs : List Bytes)
    → Unseen (x ∷ seen) xs ↔ (All (λ y. y ≢ x) xs × Unseen seen xs)
Unseen-cons x seen [] = ground arith
Unseen-cons x seen (y ∷ xs) = ground (arith, Unseen-cons x seen xs)

unique_from_iff :
    (seen : List Bytes) (rs : List SignedReceipt)
    → (unique_from seen rs ≡ ok tt) ↔ (Unseen seen (normal_forms rs) × Distinct (normal_forms rs))
unfolding unique_from
unique_from_iff seen [] = ground arith
unique_from_iff seen (r ∷ rs) =
    let x = normalize_signature r.signature in
    ground (
      arith,
      seen_before_iff x seen,
      Unseen-cons x seen (normal_forms rs),
      unique_from_iff (x ∷ seen) rs,
    )

Unseen-nil : (xs : List Bytes) → Unseen [] xs
Unseen-nil [] = tt
Unseen-nil (x ∷ xs) = (tt, Unseen-nil xs)

pub normal_forms_iff :
    (rs : List SignedReceipt) → (check_signatures_unique rs ≡ ok tt) ↔ Distinct (normal_forms rs)
unfolding check_signatures_unique
normal_forms_iff rs = ground (arith, unique_from_iff [] rs, Unseen-nil (normal_forms rs))

-- The signature is a value of Go's `[65]byte`.
abbrev pub HasSignature : SignedReceipt → Type 0
HasSignature r = (length r.signature ≡ 65) × AreBytes r.signature

abbrev pub canonical_forms : List SignedReceipt → List Bytes
canonical_forms [] = []
canonical_forms (r ∷ rs) = canonical r.signature ∷ canonical_forms rs

normal_forms-canonical_forms :
    (rs : List SignedReceipt) → All HasSignature rs → normal_forms rs ≡ canonical_forms rs
normal_forms-canonical_forms [] h = refl
normal_forms-canonical_forms (r ∷ rs) h =
    ap (λ x. x ∷ normal_forms rs) (normalize_signature-canonical r.signature h.0.0 h.0.1)
    ∙ ap (λ xs. canonical r.signature ∷ xs) (normal_forms-canonical_forms rs h.1)

-- Signatures of 65 bytes pass exactly when no two of them become equal once the number in the bytes
-- from 32 to 64, where it is above half the curve's order, is replaced by its distance from the
-- order and the lowest bit of the last byte is flipped.
pub check_signatures_unique_iff :
    (rs : List SignedReceipt)
    → All HasSignature rs
    → (check_signatures_unique rs ≡ ok tt) ↔ Distinct (canonical_forms rs)
check_signatures_unique_iff rs h =
    subst (λ forms. (check_signatures_unique rs ≡ ok tt) ↔ Distinct forms)
      (normal_forms-canonical_forms rs h) (normal_forms_iff rs)

abbrev pub IsAfter : ℕ → SignedReceipt → Type 0
IsAfter t r = (m : Receipt) × (r.message ≡ some m) × (t < m.timestamp_ns)

-- The timestamps pass exactly when every receipt has a message with a timestamp greater than `t`.
pub timestamps_after_iff :
    (t : ℕ) (rs : List SignedReceipt) → (timestamps_after t rs ≡ ok tt) ↔ All (IsAfter t) rs
unfolding timestamps_after
timestamps_after_iff t [] = ground arith
timestamps_after_iff t (r ∷ rs) = elim (Option-cases r.message) [
  | inl e ↦ (λ h. ground arith, λ h. cc (h.0.1))
  | inr (m, e) ↦ (
    λ h. (
      (m, e, ground (arith, timestamps_after_iff t rs)),
      ground (arith, timestamps_after_iff t rs),
    ),
    λ h. ground (arith, h.0.1, timestamps_after_iff t rs),
  )
]

abbrev pub HasParties : Parties → SignedReceipt → Type 0
HasParties ps r = (m : Receipt) × (r.message ≡ some m) × (receipt_parties m ≡ ps)

-- The receipts pass against the receipt `f` exactly when each has a message with the collection,
-- the payer, the service provider and the data service of `f`.
pub consistent_with_iff :
    (f : Receipt) (rs : List SignedReceipt)
    → (consistent_with (some f) rs ≡ ok tt) ↔ All (HasParties (receipt_parties f)) rs
unfolding consistent_with
consistent_with_iff f [] = ground arith
consistent_with_iff f (r ∷ rs) = elim (Option-cases r.message) [
  | inl e ↦ (λ h. ground arith, λ h. cc (h.0.1))
  | inr (m, e) ↦
      let same = compare_parties_iff (receipt_parties m) (receipt_parties f) in
      (
        λ h. ((m, e, ground (arith, same)), ground (arith, consistent_with_iff f rs)),
        λ h. ground (arith, h.0.1, same, consistent_with_iff f rs),
      )
]
