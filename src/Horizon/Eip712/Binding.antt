-- ===== src/Horizon/Eip712/Binding.antt =====
-- The encoding of a voucher determines its fields, so that a signature binds them.
use substreams_data_service.Common.{
  ℕ, ◌-◌, ◌<◌, ◌≤◌, ◌^◌, ◌≡◌, refl, sym, ap, ◌∙◌, some, inl, inr, Bool-cases, ◌++◌, Bytes, length,
  replicate, length-replicate, length-append, append_inj, ltb, arith,
}
use substreams_data_service.Common.Int.{pos, abs}
use substreams_data_service.Common.Digits.{
  fixed, value, be_bytes, set_bytes, value-padded, value-fixed, length-fixed,
}
use substreams_data_service.Common.Go.{ok, panic, >>=-eq-ok}
use substreams_data_service.Horizon.Types.{Address, Rav}
use substreams_data_service.Horizon.EthGo.{EthGo}
use substreams_data_service.Horizon.Eip712.{pad_left, encode_uint64, encode_uint128, encode_rav}

-- The lengths and ranges of the Go types, and a value that is not negative.
pub record IsEncodable (m : Rav) (v : ℕ) : Type 0 where
  pub collection_id : length m.collection_id ≡ 32
  pub payer : length m.payer ≡ 20
  pub service_provider : length m.service_provider ≡ 20
  pub data_service : length m.data_service ≡ 20
  pub timestamp : m.timestamp_ns < 2 ^ 64
  pub value : m.value_aggregate ≡ some (pos v)

pad_left-address : (a : Address) → length a ≡ 20 → pad_left a 32 ≡ replicate 12 0 ++ a
unfolding pad_left
pad_left-address a h = rw h refl

length-pad_left : (a : Address) → length a ≡ 20 → length (pad_left a 32) ≡ 32
length-pad_left a h = rw (pad_left-address a h) (omega (arith, h))

pad_left_inj :
    (a b : Address) → length a ≡ 20 → length b ≡ 20 → pad_left a 32 ≡ pad_left b 32 → a ≡ b
pad_left_inj a b h k e =
    (append_inj (replicate 12 0) (replicate 12 0) refl
      (sym (pad_left-address a h) ∙ e ∙ pad_left-address b k)).1

length-encode_uint64 : (t : ℕ) → length (encode_uint64 t) ≡ 32
unfolding encode_uint64
length-encode_uint64 t =
    omega
      (arith, length-append (replicate 24 0) (fixed 256 8 t), length-fixed 256 (omega arith) 8 t)

encode_uint64_inj : (t u : ℕ) → t < 2 ^ 64 → u < 2 ^ 64 → encode_uint64 t ≡ encode_uint64 u → t ≡ u
unfolding encode_uint64
encode_uint64_inj t u h k e =
    let same = (append_inj (replicate 24 0) (replicate 24 0) refl e).1 in
    sym (value-fixed 256 (omega arith) 8 t h)
    ∙ ap (value 256) same
    ∙ value-fixed 256 (omega arith) 8 u k

encode_uint128-value :
    (v : ℕ) {b : Bytes} → encode_uint128 (some (pos v)) ≡ ok b → (length b ≡ 32) × (set_bytes b ≡ v)
unfolding encode_uint128
encode_uint128-value v {b} h =
    let bytes = be_bytes (abs (pos v)) in
    let zeros = 32 - length bytes in
    elim (Bool-cases (ltb 32 (length bytes))) [
      | inl long ↦ let bad : encode_uint128 (some (pos v)) ≡ panic = rw long refl in cc
      | inr short ↦
          let made : encode_uint128 (some (pos v)) ≡ ok (replicate zeros 0 ++ bytes) =
            rw short refl in
          let same : replicate zeros 0 ++ bytes ≡ b = ground (arith, made) in
          let fits : length bytes ≤ 32 = ground arith in
          rw⁻¹ same (
            omega
                (arith, length-append (replicate zeros 0) bytes, length-replicate {A = ℕ} zeros 0),
            value-padded 256 (omega arith) zeros (abs (pos v)) ∙ omega arith,
          )
    ]

module _ (eth : EthGo) where
  encoded_value :
      (m : Rav) (v : ℕ) {bs : Bytes}
      → IsEncodable m v
      → encode_rav eth (some m) ≡ ok bs
      → (b : Bytes) × (length b ≡ 32)
        × (set_bytes b ≡ v)
        × (m.collection_id
              ++ (pad_left m.payer 32
                  ++ (pad_left m.service_provider 32
                      ++ (pad_left m.data_service 32
                          ++ (encode_uint64 m.timestamp_ns ++ (b ++ eth.keccak256 m.metadata)))))
            ≡ bs)
  unfolding encode_rav
  encoded_value m v {bs} a h =
      let (b, coded, h₁) = >>=-eq-ok (encode_uint128 m.value_aggregate) _ h in
      let (size, spelled) = encode_uint128-value v (ap encode_uint128 (sym a.value) ∙ coded) in
      (b, size, spelled, ground arith)

  -- Two vouchers with fields of the Go types' sizes and values that are not negative, which have
  -- the same encoding, have the same collection, parties, timestamp and value, and metadata with
  -- the same hash.
  pub encode_rav_binds :
      (m n : Rav) (v w : ℕ) {bs : Bytes}
      → IsEncodable m v
      → IsEncodable n w
      → encode_rav eth (some m) ≡ ok bs
      → encode_rav eth (some n) ≡ ok bs
      → (m.collection_id ≡ n.collection_id)
        × (m.payer ≡ n.payer)
        × (m.service_provider ≡ n.service_provider)
        × (m.data_service ≡ n.data_service)
        × (m.timestamp_ns ≡ n.timestamp_ns)
        × (v ≡ w)
        × (eth.keccak256 m.metadata ≡ eth.keccak256 n.metadata)
  encode_rav_binds m n v w {bs} a b h k =
      let (x, x_size, x_value, e) = encoded_value m v a h in
      let (y, y_size, y_value, f) = encoded_value n w b k in
      let (collection, r₁) =
        append_inj m.collection_id n.collection_id (a.collection_id ∙ sym b.collection_id)
          (e ∙ sym f) in
      let (payer, r₂) =
        append_inj (pad_left m.payer 32) (pad_left n.payer 32)
          (length-pad_left m.payer a.payer ∙ sym (length-pad_left n.payer b.payer)) r₁ in
      let (provider, r₃) =
        append_inj (pad_left m.service_provider 32) (pad_left n.service_provider 32)
          (length-pad_left m.service_provider a.service_provider
            ∙ sym (length-pad_left n.service_provider b.service_provider))
          r₂ in
      let (service, r₄) =
        append_inj (pad_left m.data_service 32) (pad_left n.data_service 32)
          (length-pad_left m.data_service a.data_service
            ∙ sym (length-pad_left n.data_service b.data_service))
          r₃ in
      let (time, r₅) =
        append_inj (encode_uint64 m.timestamp_ns) (encode_uint64 n.timestamp_ns)
          (length-encode_uint64 m.timestamp_ns ∙ sym (length-encode_uint64 n.timestamp_ns)) r₄ in
      let (number, hash) = append_inj x y (x_size ∙ sym y_size) r₅ in
      (
        collection,
        pad_left_inj m.payer n.payer a.payer b.payer payer,
        pad_left_inj m.service_provider n.service_provider a.service_provider b.service_provider
            provider,
        pad_left_inj m.data_service n.data_service a.data_service b.data_service service,
        encode_uint64_inj m.timestamp_ns n.timestamp_ns a.timestamp b.timestamp time,
        sym x_value ∙ ap set_bytes number ∙ y_value,
        hash,
      )
