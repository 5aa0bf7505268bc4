-- ===== src/Horizon/Aggregator/Soundness.antt =====
-- Which receipts the aggregator accepts, and what it signs for them.
use substreams_data_service.Common.{ℕ, ◌≡◌, ◌∙◌, ap, sym, List, ◌∷◌, some, All, if◌then◌else◌}
use substreams_data_service.Common.Int.{ℤ, pos, ◌+ℤ◌, ◌≤ℤ◌, ltb_ℤ}
use substreams_data_service.Common.Go.{Ptr, ok, err, >>=-eq-ok, >>-eq-ok, >>=-if}
use substreams_data_service.Horizon.Types.{
  Rav, Receipt, SignedReceipt, SignedRav, Error, max_uint128,
}
use substreams_data_service.Horizon.EthGo.{EthGo}
use substreams_data_service.Horizon.Eip712.{rav_encodable}
use substreams_data_service.Horizon.SignedMessage.{sign}
use substreams_data_service.Horizon.SignedMessage.Recovery.{sign-message}
use substreams_data_service.Horizon.Checks.{
  check_signatures_unique, check_receipt_timestamps, validate_receipt_consistency,
}
use substreams_data_service.Horizon.Checks.Exact.{normal_forms_iff, consistent_with_iff}
use substreams_data_service.Horizon.Totals.{Totals, initial_totals, aggregate}
use substreams_data_service.Horizon.Totals.Exact.{
  HasValue, NonNegative, sum_values, latest, voucher, aggregate_total, aggregate_sound,
  add_receipts_sound, add_receipts_fits_cons,
}
use substreams_data_service.Horizon.Aggregator.{
  Aggregator, verify_receipt_signers, check_previous_signer, check_previous_fields,
  aggregate_receipts,
}
use substreams_data_service.Horizon.Aggregator.Conditions.{
  IsAdmissible, Follows-iff, verify_receipt_signers_iff, validate-eq,
}

module _ (eth : EthGo) (a : Aggregator eth) where
  -- Receipts that the aggregator accepts are distinct, signed by accepted signers, for the same
  -- parties and later than the previous voucher; the voucher that it signs has these parties, the
  -- previous value plus the sum of the receipts, within 128 bits, and the latest timestamp.
  pub aggregate_receipts_sound :
      (head : SignedReceipt) (rest : List SignedReceipt) (previous : Ptr SignedRav)
      {out : SignedRav}
      → aggregate_receipts eth a (head ∷ rest) previous ≡ ok out
      → (first : Receipt) × (start : Totals) × (totals : Totals) × IsAdmissible eth a first head
          rest previous
        × (initial_totals previous ≡ ok start)
        × (out.message ≡ some (voucher first totals))
        × (totals.0 ≡ latest start.0 (head ∷ rest))
        × (totals.1 ≡ start.1 +ℤ sum_values (head ∷ rest))
        × (totals.1 ≤ℤ pos max_uint128)
  unfolding aggregate_receipts
  aggregate_receipts_sound head rest previous {out} h =
      let rs = head ∷ rest in
      let (unique, h₁) = >>-eq-ok (check_signatures_unique rs) _ h in
      let (signers, h₂) = >>-eq-ok (verify_receipt_signers eth a rs) _ h₁ in
      let (signer, h₃) = >>-eq-ok (check_previous_signer eth a previous) _ h₂ in
      let (later, h₄) = >>-eq-ok (check_receipt_timestamps rs previous) _ h₃ in
      let (uniform, h₅) = >>-eq-ok (validate_receipt_consistency rs) _ h₄ in
      let (fields, h₆) = >>-eq-ok (check_previous_fields eth head previous) _ h₅ in
      let (rav, made, h₇) = >>=-eq-ok (aggregate head rest previous) _ h₆ in
      let (start, totals, first, begun, added, here, e) = aggregate_sound head rest previous made in
      let (_, late, sum) = add_receipts_sound start.0 start.1 rs added in
      (
        first,
        start,
        totals,
        record {
          here = here;
          distinct = (normal_forms_iff rs).0 unique;
          signed = (verify_receipt_signers_iff eth a rs).0 signers;
          same =
              (consistent_with_iff first rest).0 (sym (validate-eq eth a head rest here) ∙ uniform);
          follows = (Follows-iff eth a first head rest previous here).0 (signer, later, fields);
        },
        begun,
        sign-message eth (rav_encodable eth) a.domain (some rav) a.signer_key h₇ ∙ ap some e,
        late,
        sum,
        add_receipts_fits_cons start.0 start.1 head rest added,
      )

  -- Receipts that meet the conditions, with values that are there and not negative, are signed as
  -- one voucher of the previous value plus their sum, or refused as an overflow if that sum
  -- exceeds 128 bits.
  pub aggregate_receipts_complete :
      (t : ℕ) (v : ℤ) (first : Receipt) (head : SignedReceipt) (rest : List SignedReceipt)
      (previous : Ptr SignedRav)
      → IsAdmissible eth a first head rest previous
      → initial_totals previous ≡ ok (t, v)
      → v ≤ℤ pos max_uint128
      → All HasValue (head ∷ rest)
      → All NonNegative (head ∷ rest)
      → aggregate_receipts eth a (head ∷ rest) previous ≡ (
          if ltb_ℤ (pos max_uint128) (v +ℤ sum_values (head ∷ rest))
          then err Error.aggregate_overflow
          else sign eth
              (rav_encodable eth)
              a.domain
              (some (voucher first (latest t (head ∷ rest), v +ℤ sum_values (head ∷ rest))))
              a.signer_key)
  unfolding aggregate_receipts
  aggregate_receipts_complete t v first head rest previous adm begun fits has p =
      let rs = head ∷ rest in
      let (signer, later, fields) =
        (Follows-iff eth a first head rest previous adm.here).1 adm.follows in
      let unique = (normal_forms_iff rs).1 adm.distinct in
      let signers = (verify_receipt_signers_iff eth a rs).1 adm.signed in
      let uniform =
        validate-eq eth a head rest adm.here ∙ (consistent_with_iff first rest).1 adm.same in
      let total = aggregate_total t v first head rest previous begun adm.here fits has p in
      rw (unique, signers, signer, later, uniform, fields, total)
        (>>=-if {A = Rav} (ltb_ℤ (pos max_uint128) (v +ℤ sum_values rs)) Error.aggregate_overflow
          (voucher first (latest t rs, v +ℤ sum_values rs))
          (λ rav. sign eth (rav_encodable eth) a.domain (some rav) a.signer_key))
