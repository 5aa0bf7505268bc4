-- ===== src/Tests/Aggregation.antt =====
-- Tests of the package horizon.
use substreams_data_service.Common.{
  ◌++◌, ℕ, ◌≡◌, ◌≢◌, ◌↔◌, refl, List, [], ◌∷◌, some, none, true, All, Bytes, replicate,
  if◌then◌else◌, arith, bytes_equal,
}
use substreams_data_service.Common.Int.{ℤ, pos, ◌+ℤ◌, ◌≤ℤ◌, ltb_ℤ}
use substreams_data_service.Common.Go.{Ptr, ok, err}
use substreams_data_service.Horizon.Types.{Receipt, SignedReceipt, SignedRav, Error, max_uint128}
use substreams_data_service.Horizon.Eip712.{
  rav_encodable, encode_rav, encode_uint128, encode_uint64, pad_left,
}
use substreams_data_service.Horizon.Eip712.Binding.{IsEncodable, encode_rav_binds}
use substreams_data_service.Horizon.SignedMessage.{sign, recover_signer}
use substreams_data_service.Horizon.SignedMessage.Recovery.{recover_signer-sign}
use substreams_data_service.Horizon.Checks.{
  check_signatures_unique, timestamps_after, consistent_with, receipt_parties, addresses_equal,
}
use substreams_data_service.Horizon.Checks.Exact.{
  Distinct, canonical_forms, normal_forms_iff, IsAfter, HasParties, addresses_equal_iff,
  check_signatures_unique_iff, timestamps_after_iff, consistent_with_iff,
}
use substreams_data_service.Common.Digits.{AreBytes}
use substreams_data_service.Common.{zero, suc, replicate, ◌<◌}
use substreams_data_service.Horizon.Totals.{Totals, initial_totals}
use substreams_data_service.Horizon.Totals.Exact.{sum_values, latest, voucher}
use substreams_data_service.Horizon.Aggregator.{aggregate_receipts}
use substreams_data_service.Horizon.Aggregator.Conditions.{IsAdmissible}
use substreams_data_service.Horizon.Aggregator.Soundness.{
  aggregate_receipts_sound, aggregate_receipts_complete,
}
use substreams_data_service.Tests.Samples.{
  toy, toy-EthLaws, address, domain, aggregator, receipt, signed_receipt, rav, signed_rav,
}

abbrev head : SignedReceipt
head = signed_receipt 1 110 5

abbrev rest : List SignedReceipt
rest = signed_receipt 2 105 6 ∷ []

abbrev previous : Ptr SignedRav
previous = some (signed_rav 100 20)

sign-rav : sign toy (rav_encodable toy) domain (some (rav 110 31)) 7 ≡ ok (signed_rav 110 31)
unfolding substreams_data_service.Horizon.SignedMessage.sign
    substreams_data_service.Horizon.Eip712.hash_typed_data
    substreams_data_service.Horizon.Eip712.hash_struct
    substreams_data_service.Horizon.Eip712.encode_rav
    substreams_data_service.Horizon.Eip712.encode_receipt
    substreams_data_service.Horizon.Eip712.encode_uint128
    substreams_data_service.Horizon.Eip712.encode_uint64
    substreams_data_service.Horizon.Eip712.pad_left substreams_data_service.Horizon.Eip712.separator
    substreams_data_service.Horizon.Eip712.domain_type_hash
    substreams_data_service.Horizon.Eip712.rav_type_hash
    substreams_data_service.Horizon.Eip712.receipt_type_hash
    substreams_data_service.Common.Digits.digits substreams_data_service.Common.Digits.fixed
sign-rav = refl

aggregate-receipts :
    aggregate_receipts toy aggregator (head ∷ rest) previous ≡ ok (signed_rav 110 31)
unfolding substreams_data_service.Horizon.SignedMessage.sign
    substreams_data_service.Horizon.SignedMessage.recover_signer
    substreams_data_service.Horizon.Checks.seen_before
    substreams_data_service.Horizon.Checks.unique_from
    substreams_data_service.Horizon.Checks.check_signatures_unique
    substreams_data_service.Horizon.Checks.addresses_equal
    substreams_data_service.Horizon.Checks.same_bytes
    substreams_data_service.Horizon.Checks.compare_parties
    substreams_data_service.Horizon.Checks.consistent_with
    substreams_data_service.Horizon.Checks.timestamps_after
    substreams_data_service.Horizon.Checks.check_receipt_timestamps
    substreams_data_service.Horizon.Checks.validate_receipt_consistency
    substreams_data_service.Horizon.Checks.validate_rav_consistency
    substreams_data_service.Horizon.Signature.normalize_signature
    substreams_data_service.Horizon.Signature.s_value
    substreams_data_service.Horizon.Signature.flip_signature
    substreams_data_service.Horizon.Aggregator.aggregate_receipts
    substreams_data_service.Horizon.Aggregator.verify_receipt_signers
    substreams_data_service.Horizon.Aggregator.is_accepted
    substreams_data_service.Horizon.Aggregator.check_previous_signer
    substreams_data_service.Horizon.Aggregator.verify_rav_signer
    substreams_data_service.Horizon.Aggregator.check_previous_fields
    substreams_data_service.Horizon.Totals.add_receipts
    substreams_data_service.Horizon.Totals.aggregate
    substreams_data_service.Horizon.Totals.initial_totals substreams_data_service.Common.bytes_equal
    substreams_data_service.Common.Dict.lookup substreams_data_service.Common.Int.◌+ℤ◌
    substreams_data_service.Horizon.Eip712.hash_typed_data
    substreams_data_service.Horizon.Eip712.hash_struct
    substreams_data_service.Horizon.Eip712.encode_rav
    substreams_data_service.Horizon.Eip712.encode_receipt
    substreams_data_service.Horizon.Eip712.encode_uint128
    substreams_data_service.Horizon.Eip712.encode_uint64
    substreams_data_service.Horizon.Eip712.pad_left substreams_data_service.Horizon.Eip712.separator
    substreams_data_service.Horizon.Eip712.domain_type_hash
    substreams_data_service.Horizon.Eip712.rav_type_hash
    substreams_data_service.Horizon.Eip712.receipt_type_hash
    substreams_data_service.Common.Digits.digits substreams_data_service.Common.Digits.fixed
aggregate-receipts = refl

-- The same receipt twice is refused.
aggregate-twice :
    aggregate_receipts toy aggregator (head ∷ head ∷ []) previous ≡ err Error.duplicate_signature
unfolding substreams_data_service.Horizon.SignedMessage.sign
    substreams_data_service.Horizon.SignedMessage.recover_signer
    substreams_data_service.Horizon.Checks.seen_before
    substreams_data_service.Horizon.Checks.unique_from
    substreams_data_service.Horizon.Checks.check_signatures_unique
    substreams_data_service.Horizon.Checks.addresses_equal
    substreams_data_service.Horizon.Checks.same_bytes
    substreams_data_service.Horizon.Checks.compare_parties
    substreams_data_service.Horizon.Checks.consistent_with
    substreams_data_service.Horizon.Checks.timestamps_after
    substreams_data_service.Horizon.Checks.check_receipt_timestamps
    substreams_data_service.Horizon.Checks.validate_receipt_consistency
    substreams_data_service.Horizon.Checks.validate_rav_consistency
    substreams_data_service.Horizon.Signature.normalize_signature
    substreams_data_service.Horizon.Signature.s_value
    substreams_data_service.Horizon.Signature.flip_signature
    substreams_data_service.Horizon.Aggregator.aggregate_receipts
    substreams_data_service.Horizon.Aggregator.verify_receipt_signers
    substreams_data_service.Horizon.Aggregator.is_accepted
    substreams_data_service.Horizon.Aggregator.check_previous_signer
    substreams_data_service.Horizon.Aggregator.verify_rav_signer
    substreams_data_service.Horizon.Aggregator.check_previous_fields
    substreams_data_service.Horizon.Totals.add_receipts
    substreams_data_service.Horizon.Totals.aggregate
    substreams_data_service.Horizon.Totals.initial_totals substreams_data_service.Common.bytes_equal
    substreams_data_service.Common.Dict.lookup substreams_data_service.Common.Int.◌+ℤ◌
    substreams_data_service.Horizon.Eip712.hash_typed_data
    substreams_data_service.Horizon.Eip712.hash_struct
    substreams_data_service.Horizon.Eip712.encode_rav
    substreams_data_service.Horizon.Eip712.encode_receipt
    substreams_data_service.Horizon.Eip712.encode_uint128
    substreams_data_service.Horizon.Eip712.encode_uint64
    substreams_data_service.Horizon.Eip712.pad_left substreams_data_service.Horizon.Eip712.separator
    substreams_data_service.Horizon.Eip712.domain_type_hash
    substreams_data_service.Horizon.Eip712.rav_type_hash
    substreams_data_service.Horizon.Eip712.receipt_type_hash
    substreams_data_service.Common.Digits.digits substreams_data_service.Common.Digits.fixed
aggregate-twice = refl

-- A sum of more than 128 bits is refused.
aggregate-overflow :
    aggregate_receipts toy aggregator (signed_receipt 1 110 (max_uint128) ∷ rest) previous
    ≡ err Error.aggregate_overflow
unfolding substreams_data_service.Horizon.SignedMessage.sign
    substreams_data_service.Horizon.SignedMessage.recover_signer
    substreams_data_service.Horizon.Checks.seen_before
    substreams_data_service.Horizon.Checks.unique_from
    substreams_data_service.Horizon.Checks.check_signatures_unique
    substreams_data_service.Horizon.Checks.addresses_equal
    substreams_data_service.Horizon.Checks.same_bytes
    substreams_data_service.Horizon.Checks.compare_parties
    substreams_data_service.Horizon.Checks.consistent_with
    substreams_data_service.Horizon.Checks.timestamps_after
    substreams_data_service.Horizon.Checks.check_receipt_timestamps
    substreams_data_service.Horizon.Checks.validate_receipt_consistency
    substreams_data_service.Horizon.Checks.validate_rav_consistency
    substreams_data_service.Horizon.Signature.normalize_signature
    substreams_data_service.Horizon.Signature.s_value
    substreams_data_service.Horizon.Signature.flip_signature
    substreams_data_service.Horizon.Aggregator.aggregate_receipts
    substreams_data_service.Horizon.Aggregator.verify_receipt_signers
    substreams_data_service.Horizon.Aggregator.is_accepted
    substreams_data_service.Horizon.Aggregator.check_previous_signer
    substreams_data_service.Horizon.Aggregator.verify_rav_signer
    substreams_data_service.Horizon.Aggregator.check_previous_fields
    substreams_data_service.Horizon.Totals.add_receipts
    substreams_data_service.Horizon.Totals.aggregate
    substreams_data_service.Horizon.Totals.initial_totals substreams_data_service.Common.bytes_equal
    substreams_data_service.Common.Dict.lookup substreams_data_service.Common.Int.◌+ℤ◌
    substreams_data_service.Horizon.Eip712.hash_typed_data
    substreams_data_service.Horizon.Eip712.hash_struct
    substreams_data_service.Horizon.Eip712.encode_rav
    substreams_data_service.Horizon.Eip712.encode_receipt
    substreams_data_service.Horizon.Eip712.encode_uint128
    substreams_data_service.Horizon.Eip712.encode_uint64
    substreams_data_service.Horizon.Eip712.pad_left substreams_data_service.Horizon.Eip712.separator
    substreams_data_service.Horizon.Eip712.domain_type_hash
    substreams_data_service.Horizon.Eip712.rav_type_hash
    substreams_data_service.Horizon.Eip712.receipt_type_hash
    substreams_data_service.Common.Digits.digits substreams_data_service.Common.Digits.fixed
aggregate-overflow = refl

aggregate_receipts_sound_example :
    (first : Receipt) × (start : Totals) × (totals : Totals) × IsAdmissible toy aggregator first
      head rest previous
    × (initial_totals previous ≡ ok start)
    × (some (rav 110 31) ≡ some (voucher first totals))
    × (totals.0 ≡ latest start.0 (head ∷ rest))
    × (totals.1 ≡ start.1 +ℤ sum_values (head ∷ rest))
    × (totals.1 ≤ℤ pos max_uint128)
aggregate_receipts_sound_example =
    aggregate_receipts_sound toy aggregator head rest previous aggregate-receipts

admissible : IsAdmissible toy aggregator (receipt 1 110 5) head rest previous
unfolding substreams_data_service.Horizon.SignedMessage.sign
    substreams_data_service.Horizon.SignedMessage.recover_signer
    substreams_data_service.Horizon.Checks.seen_before
    substreams_data_service.Horizon.Checks.unique_from
    substreams_data_service.Horizon.Checks.check_signatures_unique
    substreams_data_service.Horizon.Checks.addresses_equal
    substreams_data_service.Horizon.Checks.same_bytes
    substreams_data_service.Horizon.Checks.compare_parties
    substreams_data_service.Horizon.Checks.consistent_with
    substreams_data_service.Horizon.Checks.timestamps_after
    substreams_data_service.Horizon.Checks.check_receipt_timestamps
    substreams_data_service.Horizon.Checks.validate_receipt_consistency
    substreams_data_service.Horizon.Checks.validate_rav_consistency
    substreams_data_service.Horizon.Signature.normalize_signature
    substreams_data_service.Horizon.Signature.s_value
    substreams_data_service.Horizon.Signature.flip_signature
    substreams_data_service.Horizon.Aggregator.aggregate_receipts
    substreams_data_service.Horizon.Aggregator.verify_receipt_signers
    substreams_data_service.Horizon.Aggregator.is_accepted
    substreams_data_service.Horizon.Aggregator.check_previous_signer
    substreams_data_service.Horizon.Aggregator.verify_rav_signer
    substreams_data_service.Horizon.Aggregator.check_previous_fields
    substreams_data_service.Horizon.Totals.add_receipts
    substreams_data_service.Horizon.Totals.aggregate
    substreams_data_service.Horizon.Totals.initial_totals substreams_data_service.Common.bytes_equal
    substreams_data_service.Common.Dict.lookup substreams_data_service.Common.Int.◌+ℤ◌
    substreams_data_service.Horizon.Eip712.hash_typed_data
    substreams_data_service.Horizon.Eip712.hash_struct
    substreams_data_service.Horizon.Eip712.encode_rav
    substreams_data_service.Horizon.Eip712.encode_receipt
    substreams_data_service.Horizon.Eip712.encode_uint128
    substreams_data_service.Horizon.Eip712.encode_uint64
    substreams_data_service.Horizon.Eip712.pad_left substreams_data_service.Horizon.Eip712.separator
    substreams_data_service.Horizon.Eip712.domain_type_hash
    substreams_data_service.Horizon.Eip712.rav_type_hash
    substreams_data_service.Horizon.Eip712.receipt_type_hash
    substreams_data_service.Common.Digits.digits substreams_data_service.Common.Digits.fixed
admissible = record {
  here = refl;
  distinct = (normal_forms_iff (head ∷ rest)).0 refl;
  signed = ((address 7, refl, refl), ((address 7, refl, refl), tt));
  same = (consistent_with_iff (receipt 1 110 5) rest).0 refl;
  follows = (
    rav 100 20,
    refl,
    (address 7, refl, refl),
    (timestamps_after_iff 100 (head ∷ rest)).0 refl,
    refl,
  );
}

begun : initial_totals previous ≡ ok (100, pos 20)
unfolding initial_totals
begun = refl

aggregate_receipts_complete_example : aggregate_receipts toy aggregator (head ∷ rest) previous ≡ (
    if ltb_ℤ (pos max_uint128) (pos 20 +ℤ sum_values (head ∷ rest))
    then err Error.aggregate_overflow
    else sign toy
        (rav_encodable toy)
        domain
        (some (
          voucher (receipt 1 110 5) (latest 100 (head ∷ rest), pos 20 +ℤ sum_values (head ∷ rest))))
        7)
aggregate_receipts_complete_example =
    aggregate_receipts_complete toy aggregator 100 (pos 20) (receipt 1 110 5) head rest previous
      admissible begun (omega arith)
      ((receipt 1 110 5, pos 5, refl, refl), ((receipt 2 105 6, pos 6, refl, refl), tt))
      (omega arith, (omega arith, tt))

recover_signer-sign_example :
    ((signed_rav 110 31).message ≡ some (rav 110 31))
    × (recover_signer toy (rav_encodable toy) (signed_rav 110 31) domain ≡ ok (address 7))
recover_signer-sign_example =
    recover_signer-sign toy (rav_encodable toy) domain (some (rav 110 31)) 7 toy-EthLaws sign-rav

-- A receipt whose signature is not in the normal form.
abbrev high : SignedReceipt
high = record { message = some (receipt 3 115 7); signature = replicate 65 255 }

same_bytes : (n b : ℕ) → b < 256 → AreBytes (replicate n b)
same_bytes zero b h = tt
same_bytes (suc n) b h = (h, same_bytes n b h)

check_signatures_unique_iff_example :
    (check_signatures_unique (head ∷ high ∷ []) ≡ ok tt)
    ↔ Distinct (canonical_forms (head ∷ high ∷ []))
check_signatures_unique_iff_example = check_signatures_unique_iff (head ∷ high ∷ []) (
  (refl, (omega arith, (omega arith, same_bytes 63 0 (omega arith)))),
  ((refl, same_bytes 65 255 (omega arith)), tt),
)

timestamps_after_iff_example :
    (timestamps_after 100 (head ∷ rest) ≡ ok tt) ↔ All (IsAfter 100) (head ∷ rest)
timestamps_after_iff_example = timestamps_after_iff 100 (head ∷ rest)

consistent_with_iff_example :
    (consistent_with (some (receipt 1 110 5)) rest ≡ ok tt)
    ↔ All (HasParties (receipt_parties (receipt 1 110 5))) rest
consistent_with_iff_example = consistent_with_iff (receipt 1 110 5) rest

addresses_equal_iff_example :
    (addresses_equal (address 1) (address 2) ≡ true) ↔ (address 1 ≡ address 2)
addresses_equal_iff_example = addresses_equal_iff (address 1) (address 2)

abbrev coded : Bytes
coded =
    replicate 32 0
    ++ ((replicate 12 0 ++ address 1)
        ++ ((replicate 12 0 ++ address 3)
            ++ ((replicate 12 0 ++ address 2)
                ++ ((replicate 31 0 ++ (110 ∷ []))
                    ++ ((replicate 31 0 ++ (31 ∷ [])) ++ replicate 32 0)))))

encode-rav : encode_rav toy (some (rav 110 31)) ≡ ok coded
unfolding encode_rav encode_uint128 encode_uint64 pad_left
    substreams_data_service.Common.Digits.digits substreams_data_service.Common.Digits.fixed
encode-rav = refl

encodable : IsEncodable (rav 110 31) 31
encodable = record {
  collection_id = refl;
  payer = refl;
  service_provider = refl;
  data_service = refl;
  timestamp = omega arith;
  value = refl;
}

encode_rav_binds_example :
    ((rav 110 31).collection_id ≡ (rav 110 31).collection_id)
    × (address 1 ≡ address 1)
    × (address 3 ≡ address 3)
    × (address 2 ≡ address 2)
    × ((rav 110 31).timestamp_ns ≡ (rav 110 31).timestamp_ns)
    × (◌≡◌ {A = ℕ} 31 31)
    × (toy.keccak256 [] ≡ toy.keccak256 [])
encode_rav_binds_example =
    encode_rav_binds toy (rav 110 31) (rav 110 31) 31 31 encodable encodable encode-rav encode-rav
