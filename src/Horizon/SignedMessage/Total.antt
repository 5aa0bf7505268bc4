-- ===== src/Horizon/SignedMessage/Total.antt =====
-- When a voucher can be signed.
use substreams_data_service.Common.{
  ℕ, ◌-◌, ◌<◌, ◌≤◌, ◌^◌, ◌≡◌, refl, ap, ◌∙◌, some, Bytes, false, length, replicate, ◌++◌, ltb,
  arith,
}
use substreams_data_service.Common.Int.{ℤ, pos, abs}
use substreams_data_service.Common.Digits.{be_bytes, length-digits-le}
use substreams_data_service.Common.Go.{ok, deref, >>=-ok}
use substreams_data_service.Horizon.Types.{Rav, Signature, SignedRav}
use substreams_data_service.Horizon.EthGo.{EthGo}
use substreams_data_service.Horizon.Eip712.{
  Domain, encode_uint128, encode_rav, rav_encodable, hash_struct, hash_typed_data, separator,
  rav_type_hash,
}
use substreams_data_service.Horizon.SignedMessage.{sign}

-- The domain has a chain identifier, and the key signs every hash.
pub record CanSign (eth : EthGo) (domain : Domain) (key : eth.PrivateKey) : Type 0 where
  pub chain : (id : ℤ) × (domain.chain_id ≡ some id)
  pub signs : (hash : Bytes) → (sig : Signature) × (eth.sign_hash key hash ≡ ok sig)

encode_uint128_fits : (v : ℕ) → v < 2 ^ 256 → (b : Bytes) × (encode_uint128 (some (pos v)) ≡ ok b)
unfolding encode_uint128
encode_uint128_fits v h =
    let bytes = be_bytes (abs (pos v)) in
    let same : abs (pos v) ≡ v = omega arith in
    let short : length bytes ≤ 32 =
      length-digits-le 256 (omega arith) 32 (abs (pos v)) (omega arith) in
    let test : ltb 32 (length bytes) ≡ false = ground arith in
    (replicate (32 - length bytes) 0 ++ bytes, rw test refl)

module _ (eth : EthGo) (domain : Domain) where
  encode_fits :
      (m : Rav) (v : ℕ)
      → m.value_aggregate ≡ some (pos v)
      → v < 2 ^ 256
      → (bytes : Bytes) × (encode_rav eth (some m) ≡ ok bytes)
  unfolding encode_rav
  encode_fits m v value h =
      let (b, e) = encode_uint128_fits v h in
      >>=-ok (encode_uint128 m.value_aggregate) _ (ap encode_uint128 value ∙ e) (_, refl)

  separator_fits :
      {id : ℤ} → domain.chain_id ≡ some id → (bytes : Bytes) × (separator eth domain ≡ ok bytes)
  unfolding separator
  separator_fits {id} chain = >>=-ok (deref domain.chain_id) _ (ap deref chain) (_, refl)

  hash_fits :
      (m : Rav) (v : ℕ) {id : ℤ}
      → domain.chain_id ≡ some id
      → m.value_aggregate ≡ some (pos v)
      → v < 2 ^ 256
      → (hash : Bytes) × (hash_typed_data eth (rav_encodable eth) domain (some m) ≡ ok hash)
  unfolding hash_typed_data hash_struct
  hash_fits m v chain value h =
      let (bytes, e) = encode_fits m v value h in
      let (sep, f) = separator_fits chain in
      let (hash, g) =
        >>=-ok (encode_rav eth (some m)) (λ b. ok (eth.keccak256 (rav_type_hash eth ++ b))) e
          (_, refl) in
      >>=-ok (hash_struct eth (rav_encodable eth) (some m)) _ g
        (>>=-ok (separator eth domain) _ f (_, refl))

  -- A voucher whose value has at most 256 bits can be signed, if the domain has a chain
  -- identifier and the key signs every hash.
  pub sign_total :
      (key : eth.PrivateKey) (m : Rav) (v : ℕ)
      → CanSign eth domain key
      → m.value_aggregate ≡ some (pos v)
      → v < 2 ^ 256
      → (signed : SignedRav) × (sign eth (rav_encodable eth) domain (some m) key ≡ ok signed)
  unfolding sign
  sign_total key m v can value h =
      let (id, chain) = can.chain in
      let (hash, hashed) = hash_fits m v chain value h in
      let (sig, made) = can.signs hash in
      (record { message = some m; signature = sig }, rw (hashed, made) refl)
