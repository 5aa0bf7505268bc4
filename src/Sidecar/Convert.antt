-- ===== src/Sidecar/Convert.antt =====
-- sidecar/convert.go: vouchers between the protocol's form and the horizon package's.
pub mod RoundTrip
use substreams_data_service.Common.{
  ℕ, ◌++◌, none, some, Bool, Bytes, length, take, replicate, leb, if◌then◌else◌, bytes_equal,
}
use substreams_data_service.Common.Go.{Ptr, Go, ok, deref, ◌>>=◌}
use substreams_data_service.Horizon.Types.{Address, CollectionId, Signature, Rav, SignedRav}
use substreams_data_service.Pb.{
  PbRav, PbSignedRav, to_eth, to_native, big_int_from_native, address_from_eth,
}

-- The collection comes from the first 32 bytes of the metadata, if there are that many.
unfoldable pub collection_of : Bytes → CollectionId
collection_of metadata = if leb 32 (length metadata) then take 32 metadata else replicate 32 0

-- `copy(sig[:], bytes)` into a zeroed `[65]byte`.
unfoldable pub signature_of : Bytes → Signature
signature_of bytes = take 65 (bytes ++ replicate 65 0)

-- The end of `ProtoSignedRAVToHorizon`, with the converted message.
unfoldable pub with_signature : Bytes → Ptr Rav → Ptr SignedRav
with_signature signature none = none
with_signature signature (some rav) =
    some (record { message = some rav; signature = signature_of signature })

module _ {E : Type 0} where
  unfoldable pub proto_rav_to_horizon : Ptr PbRav → Go E (Ptr Rav)
  proto_rav_to_horizon none = ok none
  proto_rav_to_horizon (some pr) = do
    payer ← to_eth pr.payer
    data_service ← to_eth pr.data_service
    service_provider ← to_eth pr.service_provider
    value_aggregate ← to_native pr.value_aggregate
    ok (
        some (record {
          collection_id = collection_of pr.metadata;
          payer = payer;
          service_provider = service_provider;
          data_service = data_service;
          timestamp_ns = pr.timestamp_ns;
          value_aggregate = some value_aggregate;
          metadata = pr.metadata;
        }))

  unfoldable pub horizon_rav_to_proto : Ptr Rav → Go E (Ptr PbRav)
  horizon_rav_to_proto none = ok none
  horizon_rav_to_proto (some hr) = do
    value_aggregate ← big_int_from_native hr.value_aggregate
    ok (
        some (record {
          payer = some (address_from_eth hr.payer);
          data_service = some (address_from_eth hr.data_service);
          service_provider = some (address_from_eth hr.service_provider);
          timestamp_ns = hr.timestamp_ns;
          value_aggregate = some value_aggregate;
          metadata = hr.metadata;
        }))

  unfoldable pub proto_signed_rav_to_horizon : Ptr PbSignedRav → Go E (Ptr SignedRav)
  proto_signed_rav_to_horizon none = ok none
  proto_signed_rav_to_horizon (some psr) = do
    rav ← proto_rav_to_horizon psr.rav
    ok (with_signature psr.signature rav)

  unfoldable pub horizon_signed_rav_to_proto : Ptr SignedRav → Go E (Ptr PbSignedRav)
  horizon_signed_rav_to_proto none = ok none
  horizon_signed_rav_to_proto (some hsr) = do
    rav ← horizon_rav_to_proto hsr.message
    ok (some (record { rav = rav; signature = hsr.signature }))

-- `bytes.Equal`
unfoldable pub addresses_equal : Address → Address → Bool
unfolding bytes_equal
addresses_equal a b = bytes_equal a b
