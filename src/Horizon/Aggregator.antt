-- ===== src/Horizon/Aggregator.antt =====
-- horizon/aggregator.go: the aggregator, which validates receipts and signs their voucher.
pub mod Conditions
pub mod Soundness
use substreams_data_service.Common.{List, [], ◌∷◌, none, some, Bool, true, false, not}
use mathlib.Core.Option.{get_or}
use substreams_data_service.Common.Dict.{Dict, lookup, insert}
use substreams_data_service.Common.Go.{Ptr, Go, ok, err, err_if, ◌>>=◌, ◌>>◌}
use substreams_data_service.Horizon.Types.{Address, SignedReceipt, SignedRav, Error}
use substreams_data_service.Horizon.EthGo.{EthGo}
use substreams_data_service.Horizon.Eip712.{Domain, receipt_encodable, rav_encodable}
use substreams_data_service.Horizon.SignedMessage.{sign, recover_signer}
use substreams_data_service.Horizon.Checks.{
  check_signatures_unique, check_receipt_timestamps, validate_receipt_consistency,
  validate_rav_consistency,
}
use substreams_data_service.Horizon.Totals.{aggregate}

module _ (eth : EthGo) where
  open eth use {PrivateKey, pretty}

  pub record Aggregator : Type 0 where
    pub domain : Domain
    pub signer_key : PrivateKey
    pub accepted_signers : Dict Bool

  accept_all : List Address → Dict Bool → Dict Bool
  accept_all [] m = m
  accept_all (a ∷ rest) m = accept_all rest (insert (pretty a) true m)

  unfoldable pub new_aggregator : Domain → PrivateKey → List Address → Aggregator
  unfolding accept_all
  new_aggregator domain signer_key accepted = record {
    domain = domain;
    signer_key = signer_key;
    accepted_signers = accept_all accepted [];
  }

  -- `acceptedSigners[signer.Pretty()]`
  unfoldable pub is_accepted : Dict Bool → Address → Bool
  is_accepted m a = get_or (lookup (pretty a) m) false

  unfoldable pub verify_receipt_signers : Aggregator → List SignedReceipt → Go Error (Unit {0})
  verify_receipt_signers a [] = ok tt
  verify_receipt_signers a (r ∷ rs) = do
    signer ← recover_signer eth (receipt_encodable eth) r a.domain
    err_if (not (is_accepted a.accepted_signers signer)) Error.invalid_signer
    verify_receipt_signers a rs

  unfoldable pub verify_rav_signer : Aggregator → SignedRav → Go Error (Unit {0})
  verify_rav_signer a rav = do
    signer ← recover_signer eth (rav_encodable eth) rav a.domain
    err_if (not (is_accepted a.accepted_signers signer)) Error.rav_signer_mismatch

  -- The two checks that are made only with a previous voucher.
  unfoldable pub check_previous_signer : Aggregator → Ptr SignedRav → Go Error (Unit {0})
  unfolding verify_rav_signer
  check_previous_signer a none = ok tt
  check_previous_signer a (some previous) = verify_rav_signer a previous

  unfoldable pub check_previous_fields : SignedReceipt → Ptr SignedRav → Go Error (Unit {0})
  check_previous_fields head none = ok tt
  check_previous_fields head (some previous) =
      validate_rav_consistency head.message previous.message

  unfoldable pub aggregate_receipts :
      Aggregator → List SignedReceipt → Ptr SignedRav → Go Error SignedRav
  aggregate_receipts a [] previous = err Error.no_receipts
  aggregate_receipts a (head ∷ rest) previous = do
    check_signatures_unique (head ∷ rest)
    verify_receipt_signers a (head ∷ rest)
    check_previous_signer a previous
    check_receipt_timestamps (head ∷ rest) previous
    validate_receipt_consistency (head ∷ rest)
    check_previous_fields head previous
    rav ← aggregate head rest previous
    sign eth (rav_encodable eth) a.domain (some rav) a.signer_key
