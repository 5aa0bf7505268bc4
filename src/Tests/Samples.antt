-- ===== src/Tests/Samples.antt =====
-- The data of the tests. The eth-go library is replaced by a toy: a hash is 32 zeros, and a signature
-- is the key followed by zeros.
use substreams_data_service.Common.{
  ℕ, ◌==◌, if◌then◌else◌, ◌≡◌, refl, [], ◌∷◌, some, true, Bytes, String, replicate, arith,
}
use substreams_data_service.Common.Int.{pos}
use substreams_data_service.Common.Go.{Go, ok, err}
use substreams_data_service.Horizon.Types.{
  Address, Signature, Receipt, Rav, SignedReceipt, SignedRav, Error,
}
use substreams_data_service.Horizon.EthGo.{EthGo, EthLaws}
use substreams_data_service.Horizon.Eip712.{Domain}
use substreams_data_service.Horizon.Aggregator.{Aggregator}

abbrev pub address : ℕ → Address
address k = replicate 20 k

abbrev pub signature : ℕ → Signature
signature k = k ∷ replicate 64 0

abbrev pub signer_of : Signature → Go Error Address
signer_of [] = err Error.invalid_signer
signer_of (k ∷ _) = ok (address k)

abbrev pub first_text : Bytes → String
first_text [] = ""
first_text (k ∷ _) = if k == 7 then "0x07" else "0x00"

abbrev pub toy : EthGo
toy = record {
  PrivateKey = ℕ;
  keccak256 = λ b. replicate 32 0;
  sign_hash = λ key hash. ok (signature key);
  recover = λ sig hash. signer_of sig;
  address_of = address;
  pretty = first_text;
}

pub toy-EthLaws : EthLaws toy
toy-EthLaws = record {
  recover-sign = λ key hash sig h. let e : signature key ≡ sig = ground arith in rw⁻¹ e refl;
}

abbrev pub domain : Domain
domain = record { name = []; version = []; chain_id = some (pos 1); verifying_contract = address 9 }

-- The key 7 signs, and its address is accepted.
abbrev pub aggregator : Aggregator toy
aggregator = record { domain = domain; signer_key = 7; accepted_signers = ("0x07", true) ∷ [] }

abbrev pub receipt : ℕ → ℕ → ℕ → Receipt
receipt nonce timestamp value = record {
  collection_id = replicate 32 0;
  payer = address 1;
  data_service = address 2;
  service_provider = address 3;
  timestamp_ns = timestamp;
  nonce = nonce;
  value = some (pos value);
}

-- The last byte of the signature is the nonce, to keep signatures apart.
abbrev pub signed_receipt : ℕ → ℕ → ℕ → SignedReceipt
signed_receipt nonce timestamp value = record {
  message = some (receipt nonce timestamp value);
  signature = 7 ∷ nonce ∷ replicate 63 0;
}

abbrev pub rav : ℕ → ℕ → Rav
rav timestamp value = record {
  collection_id = replicate 32 0;
  payer = address 1;
  service_provider = address 3;
  data_service = address 2;
  timestamp_ns = timestamp;
  value_aggregate = some (pos value);
  metadata = [];
}

abbrev pub signed_rav : ℕ → ℕ → SignedRav
signed_rav timestamp value = record {
  message = some (rav timestamp value);
  signature = signature 7;
}
