-- ===== src/Consumer/State/Issued.antt =====
-- The voucher that `signRAV` signs.
use substreams_data_service.Common.{ℕ, ◌≡◌, some, Bytes, arith}
use substreams_data_service.Common.Int.{ℤ, abs}
use substreams_data_service.Common.Digits.{be_bytes}
use substreams_data_service.Common.Go.{Ptr, Go, ok, err, panic}
use substreams_data_service.Horizon.Types.{Address, CollectionId, Rav, SignedRav, Error}
use substreams_data_service.Horizon.EthGo.{EthGo}
use substreams_data_service.Horizon.Eip712.{rav_encodable}
use substreams_data_service.Horizon.SignedMessage.{sign}
use substreams_data_service.Pb.{PbSignedRav, big_int_from_native, address_from_eth}
use substreams_data_service.Sidecar.Convert.{horizon_signed_rav_to_proto, horizon_rav_to_proto}
use substreams_data_service.Consumer.State.{ConsumerConfig, as_internal, sign_rav}

as_internal-ok : {A : Type 0} (r : Go Error A) {a : A} → as_internal r ≡ ok a → r ≡ ok a
as_internal-ok (ok b) h = ground arith
as_internal-ok (err e) h = cc
as_internal-ok panic h = cc

-- The protocol's form of a voucher with the message `m` of the value `v`.
abbrev pub sent : SignedRav → Rav → ℤ → PbSignedRav
sent rav m v = record {
  rav = some (record {
    payer = some (address_from_eth m.payer);
    data_service = some (address_from_eth m.data_service);
    service_provider = some (address_from_eth m.service_provider);
    timestamp_ns = m.timestamp_ns;
    value_aggregate = some (record { bytes = be_bytes (abs v) });
    metadata = m.metadata;
  });
  signature = rav.signature;
}

pub horizon_signed_rav_to_proto-sent :
    {E : Type 0} (rav : SignedRav) {m : Rav} {v : ℤ}
    → rav.message ≡ some m
    → m.value_aggregate ≡ some v
    → horizon_signed_rav_to_proto {E = E} (some rav) ≡ ok (some (sent rav m v))
unfolding horizon_signed_rav_to_proto horizon_rav_to_proto big_int_from_native
horizon_signed_rav_to_proto-sent rav here value = simp (here, value)

module _ (eth : EthGo) (c : ConsumerConfig eth) where
  pub sign_rav-sign :
      (collection : CollectionId) (payer data_service provider : Address) (timestamp : ℕ)
      (v : Ptr ℤ) (metadata : Bytes) {rav : SignedRav}
      → sign_rav eth c collection payer data_service provider timestamp v metadata ≡ ok rav
      → sign eth
          (rav_encodable eth)
          c.domain
          (some (record {
            collection_id = collection;
            payer = payer;
            service_provider = provider;
            data_service = data_service;
            timestamp_ns = timestamp;
            value_aggregate = v;
            metadata = metadata;
          }))
          c.signer_key
        ≡ ok rav
  unfolding sign_rav
  sign_rav-sign collection payer data_service provider timestamp v metadata h = as_internal-ok _ h
