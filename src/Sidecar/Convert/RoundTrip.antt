-- ===== src/Sidecar/Convert/RoundTrip.antt =====
-- A voucher that is sent and received again.
use substreams_data_service.Common.{
  ℕ, ◌≡◌, refl, ◌≤◌, ◌<◌, ◌⊎◌, inl, inr, Bytes, leb, take, Bool-cases, some, length, replicate,
  take-append, arith,
}
use substreams_data_service.Common.Int.{ℤ, pos, abs}
use substreams_data_service.Common.Digits.{set_bytes, be_bytes, value-digits}
use substreams_data_service.Common.Go.{ok, ◌>>=◌}
use substreams_data_service.Horizon.Types.{Rav, SignedRav, CollectionId}
use substreams_data_service.Pb.{to_eth, to_native, big_int_from_native, address_from_eth}
use substreams_data_service.Sidecar.Convert.{
  collection_of, signature_of, with_signature, proto_rav_to_horizon, horizon_rav_to_proto,
  proto_signed_rav_to_horizon, horizon_signed_rav_to_proto,
}

-- The collection that is read from the metadata, and the value without its sign.
abbrev pub received : Rav → ℤ → Rav
received m v = record m {
  collection_id = collection_of m.metadata;
  value_aggregate = some (pos (abs v));
}

set_bytes-be_bytes : (n : ℕ) → set_bytes (be_bytes n) ≡ n
set_bytes-be_bytes n = value-digits 256 (omega arith) n

pub resent :
    {E : Type 0} (s : SignedRav) (m : Rav) (v : ℤ)
    → s.message ≡ some m
    → m.value_aggregate ≡ some v
    → length s.signature ≡ 65
    → (horizon_signed_rav_to_proto {E = E} (some s) >>= proto_signed_rav_to_horizon)
      ≡ ok (some (record { message = some (received m v); signature = s.signature }))
unfolding proto_signed_rav_to_horizon horizon_signed_rav_to_proto with_signature
    proto_rav_to_horizon horizon_rav_to_proto signature_of to_eth to_native big_int_from_native
    address_from_eth
resent s m v here value size =
    simp (here, value, set_bytes-be_bytes (abs v), take-append 65 s.signature (replicate 65 0) size)

-- `c` is the first 32 bytes of the metadata, or 32 zeros if there are fewer.
abbrev pub IsPrefix : Bytes → CollectionId → Type 0
IsPrefix metadata c =
    ((32 ≤ length metadata) × (c ≡ take 32 metadata))
    ⊎ ((length metadata < 32) × (c ≡ replicate 32 0))

collection_of-IsPrefix : (metadata : Bytes) → IsPrefix metadata (collection_of metadata)
unfolding collection_of
collection_of-IsPrefix metadata = elim (Bool-cases (leb 32 (length metadata))) [
  | inl h ↦ inl (ground (arith, h), rw h refl)
  | inr h ↦ inr (ground (arith, h), rw h refl)
]

-- Sending a signed voucher and receiving it keeps the signature and every field but two: the
-- collection becomes the first 32 bytes of the metadata, or zeros if there are fewer, and the
-- value loses its sign.
pub proto_signed_rav_to_horizon-horizon_signed_rav_to_proto :
    {E : Type 0} (s : SignedRav) (m : Rav) (v : ℤ)
    → s.message ≡ some m
    → m.value_aggregate ≡ some v
    → length s.signature ≡ 65
    → (c : CollectionId) × IsPrefix m.metadata c
      × ((horizon_signed_rav_to_proto {E = E} (some s) >>= proto_signed_rav_to_horizon)
          ≡ ok (
              some (record {
                message =
                    some (record m { collection_id = c; value_aggregate = some (pos (abs v)) });
                signature = s.signature;
              })))
proto_signed_rav_to_horizon-horizon_signed_rav_to_proto s m v here value size =
    (collection_of m.metadata, collection_of-IsPrefix m.metadata, resent s m v here value size)
