-- ===== src/Horizon/Eip712.antt =====
-- horizon/eip712.go: the EIP-712 encoding and hash of receipts and vouchers.
pub mod Binding
use Prim.Native.Char.{code}
use substreams_data_service.Common.{
  ℕ, ◌-◌, [], ◌∷◌, ◌++◌, none, some, Bytes, String, length, drop, replicate, ltb, leb,
  if◌then◌else◌,
}
use substreams_data_service.Common.Int.{ℤ, abs, int64}
use substreams_data_service.Common.Digits.{fixed, be_bytes}
use substreams_data_service.Common.Go.{Ptr, Go, ok, panic, deref, ◌>>=◌}
use substreams_data_service.Horizon.Types.{Address, Receipt, Rav, Error}
use substreams_data_service.Horizon.EthGo.{EthGo}

-- `[]byte(s)` of an ASCII text.
abbrev pub codes : String → Bytes
codes String.[] = []
codes (String.◌∷◌ c s) = code c ∷ codes s

-- What exceeds the size is cut on the left.
unfoldable pub pad_left : Bytes → ℕ → Bytes
pad_left b size =
    if leb size (length b) then drop (length b - size) b else replicate (size - length b) 0 ++ b

-- 24 zeros and the big-endian form.
unfoldable pub encode_uint64 : ℕ → Bytes
encode_uint64 v = replicate 24 0 ++ fixed 256 8 v

-- A value of more than 32 bytes makes the slice bounds negative, which panics.
unfoldable pub encode_uint128 : Ptr ℤ → Go Error Bytes
encode_uint128 none = ok (replicate 32 0)
encode_uint128 (some v) =
    let b = be_bytes (abs v) in
    if ltb 32 (length b) then panic else ok (replicate (32 - length b) 0 ++ b)

pub record Domain : Type 0 where
  pub name : Bytes
  pub version : Bytes
  pub chain_id : Ptr ℤ
  pub verifying_contract : Address

unfoldable pub new_domain : ℕ → Address → Domain
new_domain chain_id verifying_contract = record {
  name = codes "GraphTallyCollector";
  version = codes "1";
  chain_id = some (int64 chain_id);
  verifying_contract = verifying_contract;
}

-- The interface `EIP712Encodable`.
pub record Eip712Encodable (T : Type 0) : Type 0 where
  pub type_hash : T → Bytes
  pub encode_data : T → Go Error Bytes

module _ (eth : EthGo) where
  open eth use {keccak256}

  unfoldable pub domain_type_hash : Bytes
  domain_type_hash =
      keccak256
        (codes "EIP712Domain(string name,string version,uint256 chainId,address verifyingContract)")

  unfoldable pub receipt_type_hash : Bytes
  receipt_type_hash = keccak256 (
      codes
        "Receipt(bytes32 collection_id,address payer,address data_service,address service_provider,uint64 timestamp_ns,uint64 nonce,uint128 value)")

  unfoldable pub rav_type_hash : Bytes
  rav_type_hash = keccak256 (
      codes
        "ReceiptAggregateVoucher(bytes32 collectionId,address payer,address serviceProvider,address dataService,uint64 timestampNs,uint128 valueAggregate,bytes metadata)")

  unfoldable pub separator : Domain → Go Error Bytes
  separator d = do
    chain_id ← deref d.chain_id
    ok (
        keccak256 (
          domain_type_hash
          ++ (keccak256 d.name
              ++ (keccak256 d.version
                  ++ (pad_left (be_bytes (abs chain_id)) 32 ++ pad_left d.verifying_contract 32)))))

  -- `(*Receipt).EIP712EncodeData`
  unfoldable pub encode_receipt : Ptr Receipt → Go Error Bytes
  encode_receipt p = do
    r ← deref p
    value ← encode_uint128 r.value
    ok (
        r.collection_id
        ++ (pad_left r.payer 32
            ++ (pad_left r.data_service 32
                ++ (pad_left r.service_provider 32
                    ++ (encode_uint64 r.timestamp_ns ++ (encode_uint64 r.nonce ++ value))))))

  -- `(*RAV).EIP712EncodeData`
  unfoldable pub encode_rav : Ptr Rav → Go Error Bytes
  encode_rav p = do
    r ← deref p
    value ← encode_uint128 r.value_aggregate
    ok (
        r.collection_id
        ++ (pad_left r.payer 32
            ++ (pad_left r.service_provider 32
                ++ (pad_left r.data_service 32
                    ++ (encode_uint64 r.timestamp_ns ++ (value ++ keccak256 r.metadata))))))

  abbrev pub receipt_encodable : Eip712Encodable (Ptr Receipt)
  receipt_encodable = record { type_hash = λ _. receipt_type_hash; encode_data = encode_receipt }

  abbrev pub rav_encodable : Eip712Encodable (Ptr Rav)
  rav_encodable = record { type_hash = λ _. rav_type_hash; encode_data = encode_rav }

  module _ {T : Type 0} (encodable : Eip712Encodable T) where
    unfoldable pub hash_struct : T → Go Error Bytes
    hash_struct message = do
      encoded ← encodable.encode_data message
      ok (keccak256 (encodable.type_hash message ++ encoded))

    unfoldable pub hash_typed_data : Domain → T → Go Error Bytes
    hash_typed_data domain message = do
      struct_hash ← hash_struct message
      domain_sep ← separator domain
      ok (keccak256 (0x19 ∷ 0x01 ∷ (domain_sep ++ struct_hash)))
