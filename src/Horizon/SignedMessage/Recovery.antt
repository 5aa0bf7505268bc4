-- ===== src/Horizon/SignedMessage/Recovery.antt =====
-- A message signed by `Sign` recovers to the signer.
use substreams_data_service.Common.{◌≡◌, refl, Bytes, arith}
use substreams_data_service.Common.Go.{ok, >>=-eq-ok}
use substreams_data_service.Horizon.Types.{SignedMessage}
use substreams_data_service.Horizon.EthGo.{EthGo, EthLaws}
use substreams_data_service.Horizon.Eip712.{Domain, Eip712Encodable, hash_typed_data}
use substreams_data_service.Horizon.SignedMessage.{sign, recover_signer}

-- What `Sign` returns holds the message itself, and recovering the signer from it, under the same
-- domain, gives the address of the key, if a signature recovers to the key that made it.
pub recover_signer-sign :
    (eth : EthGo) {T : Type 0} (encodable : Eip712Encodable T) (domain : Domain) (message : T)
    (key : eth.PrivateKey) {signed : SignedMessage T}
    → EthLaws eth
    → sign eth encodable domain message key ≡ ok signed
    → (signed.message ≡ message)
      × (recover_signer eth encodable signed domain ≡ ok (eth.address_of key))
unfolding sign recover_signer
recover_signer-sign eth encodable domain message key {signed} laws h =
    let (hash, hashed, h₁) = >>=-eq-ok (hash_typed_data eth encodable domain message) _ h in
    let (sig, made, h₂) = >>=-eq-ok (eth.sign_hash key hash) _ h₁ in
    let recovered = laws.recover-sign key hash sig made in
    let e : signed ≡ record { message = message; signature = sig } = ground arith in
    rw e (refl, rw hashed recovered)

pub sign-message :
    (eth : EthGo) {T : Type 0} (encodable : Eip712Encodable T) (domain : Domain) (message : T)
    (key : eth.PrivateKey) {signed : SignedMessage T}
    → sign eth encodable domain message key ≡ ok signed
    → signed.message ≡ message
unfolding sign
sign-message eth encodable domain message key {signed} h =
    let (hash, hashed, h₁) = >>=-eq-ok (hash_typed_data eth encodable domain message) _ h in
    let (sig, made, h₂) = >>=-eq-ok (eth.sign_hash key hash) _ h₁ in ground arith

-- The signature is one that the key makes.
pub sign-signature :
    (eth : EthGo) {T : Type 0} (encodable : Eip712Encodable T) (domain : Domain) (message : T)
    (key : eth.PrivateKey) {signed : SignedMessage T}
    → sign eth encodable domain message key ≡ ok signed
    → (hash : Bytes) × (eth.sign_hash key hash ≡ ok signed.signature)
unfolding sign
sign-signature eth encodable domain message key {signed} h =
    let (hash, hashed, h₁) = >>=-eq-ok (hash_typed_data eth encodable domain message) _ h in
    let (sig, made, h₂) = >>=-eq-ok (eth.sign_hash key hash) _ h₁ in
    let same : signed ≡ record { message = message; signature = sig } = ground arith in
    (hash, rw same made)
