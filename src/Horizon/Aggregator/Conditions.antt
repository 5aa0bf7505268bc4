-- ===== src/Horizon/Aggregator/Conditions.antt =====
-- The conditions under which the checks of `AggregateReceipts` pass.
use substreams_data_service.Common.{
  ◌≡◌, ◌↔◌, ◌∙◌, ap, sym, refl, List, [], ◌∷◌, none, some, true, All, arith,
}
use substreams_data_service.Common.Go.{Ptr, ok, deref, >>=-eq-ok, deref-eq-ok}
use substreams_data_service.Horizon.Types.{Address, Receipt, Rav, SignedReceipt, SignedRav}
use substreams_data_service.Horizon.EthGo.{EthGo}
use substreams_data_service.Horizon.Eip712.{receipt_encodable, rav_encodable}
use substreams_data_service.Horizon.SignedMessage.{recover_signer}
use substreams_data_service.Horizon.Checks.{
  check_receipt_timestamps, validate_receipt_consistency, validate_rav_consistency, receipt_parties,
  rav_parties, compare_parties, consistent_with,
}
use substreams_data_service.Horizon.Checks.Exact.{
  Distinct, normal_forms, IsAfter, timestamps_after_iff, HasParties, compare_parties_iff,
}
use substreams_data_service.Horizon.Aggregator.{
  Aggregator, is_accepted, verify_receipt_signers, verify_rav_signer, check_previous_signer,
  check_previous_fields,
}

module _ (eth : EthGo) (a : Aggregator eth) where
  -- The signature recovers to an accepted address.
  abbrev pub IsSigned : SignedReceipt → Type 0
  IsSigned r =
      (s : Address) × (recover_signer eth (receipt_encodable eth) r a.domain ≡ ok s)
      × (is_accepted eth a.accepted_signers s ≡ true)

  abbrev pub IsSignedRav : SignedRav → Type 0
  IsSignedRav r =
      (s : Address) × (recover_signer eth (rav_encodable eth) r a.domain ≡ ok s)
      × (is_accepted eth a.accepted_signers s ≡ true)

  pub verify_receipt_signers_iff :
      (rs : List SignedReceipt) → (verify_receipt_signers eth a rs ≡ ok tt) ↔ All IsSigned rs
  unfolding verify_receipt_signers
  verify_receipt_signers_iff [] = ground arith
  verify_receipt_signers_iff (r ∷ rs) = (
    λ h.
        let (s, recovered, h₁) =
          >>=-eq-ok (recover_signer eth (receipt_encodable eth) r a.domain) _ h in
        ((s, recovered, ground arith), ground (arith, verify_receipt_signers_iff rs)),
    λ h. rw (h.0.1) (ground (arith, h.0.2, verify_receipt_signers_iff rs)),
  )

  -- The previous voucher, if any, is signed by an accepted address, is older than every receipt
  -- and has the parties of the first one.
  abbrev pub Follows : Receipt → List SignedReceipt → Ptr SignedRav → Type 0
  Follows first rs none = Unit {0}
  Follows first rs (some p) =
      (m : Rav) × (p.message ≡ some m)
      × IsSignedRav p
      × All (IsAfter m.timestamp_ns) rs
      × (receipt_parties first ≡ rav_parties m)

  pub record IsAdmissible (first : Receipt) (head : SignedReceipt) (rest : List SignedReceipt)
      (previous : Ptr SignedRav) : Type 0 where
    pub here : head.message ≡ some first
    pub distinct : Distinct (normal_forms (head ∷ rest))
    pub signed : All IsSigned (head ∷ rest)
    pub same : All (HasParties (receipt_parties first)) rest
    pub follows : Follows first (head ∷ rest) previous

  check_previous_signer_iff :
      (p : SignedRav) → (check_previous_signer eth a (some p) ≡ ok tt) ↔ IsSignedRav p
  unfolding check_previous_signer verify_rav_signer
  check_previous_signer_iff p = (
    λ h.
        let (s, recovered, h₁) =
          >>=-eq-ok (recover_signer eth (rav_encodable eth) p a.domain) _ h in
        (s, recovered, ground arith),
    λ h. rw (h.1) (ground (arith, h.2)),
  )

  check_previous_fields-eq :
      {first : Receipt} {m : Rav} (head : SignedReceipt) (p : SignedRav)
      → head.message ≡ some first
      → p.message ≡ some m
      → check_previous_fields eth head (some p)
        ≡ compare_parties (receipt_parties first) (rav_parties m)
  unfolding check_previous_fields validate_rav_consistency
  check_previous_fields-eq head p here there = ground arith

  pub validate-eq :
      {first : Receipt} (head : SignedReceipt) (rest : List SignedReceipt)
      → head.message ≡ some first
      → validate_receipt_consistency (head ∷ rest) ≡ consistent_with (some first) rest
  unfolding validate_receipt_consistency
  validate-eq head rest here = ap (λ p. consistent_with p rest) here

  pub Follows-iff :
      (first : Receipt) (head : SignedReceipt) (rest : List SignedReceipt)
      (previous : Ptr SignedRav)
      → head.message ≡ some first
      → ((check_previous_signer eth a previous ≡ ok tt)
          × (check_receipt_timestamps (head ∷ rest) previous ≡ ok tt)
          × (check_previous_fields eth head previous ≡ ok tt))
        ↔ Follows first (head ∷ rest) previous
  unfolding check_receipt_timestamps check_previous_fields validate_rav_consistency
  Follows-iff first head rest none here =
      unfold check_previous_signer in ((λ _. tt), λ _. (refl, refl, refl))
  Follows-iff first head rest (some p) here = (
    λ (signer, later, fields).
        let (m, there, h) = >>=-eq-ok (deref p.message) _ later in
        let e = deref-eq-ok p.message there in
        (
          m,
          e,
          (check_previous_signer_iff p).0 signer,
          (timestamps_after_iff m.timestamp_ns (head ∷ rest)).0 h,
          (compare_parties_iff (receipt_parties first) (rav_parties m)).0
              (sym (check_previous_fields-eq head p here e) ∙ fields),
        ),
    λ (m, e, signed, after, same). (
      (check_previous_signer_iff p).1 signed,
      rw e ((timestamps_after_iff m.timestamp_ns (head ∷ rest)).1 after),
      check_previous_fields-eq head p here e
          ∙ ((compare_parties_iff (receipt_parties first) (rav_parties m)).1 same),
    ),
  )
