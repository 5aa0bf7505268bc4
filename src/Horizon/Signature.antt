-- ===== src/Horizon/Signature.antt =====
-- horizon/signature.go: the form in which signatures are compared. The code calls the bytes from 32 to
-- 64 the value S.
pub mod Canonical
use Prim.Native.Nat.{bit_xor}
use substreams_data_service.Common.{
  ℕ, ◌+◌, ◌-◌, ◌/◌, Bool, Bytes, ◌++◌, length, take, drop, replicate, ltb, if◌then◌else◌,
  bytes_equal, map,
}
use substreams_data_service.Common.Int.{abs, sub_ℕ}
use substreams_data_service.Common.Digits.{be_bytes, set_bytes}
use substreams_data_service.Horizon.Types.{Signature}

abbrev pub secp256k1_n : ℕ
secp256k1_n = 0xFFFFFFFFFFFFFFFFFFFFFFFFFFFFFFFEBAAEDCE6AF48A03BBFD25E8CD0364141

abbrev pub secp256k1_half_n : ℕ
secp256k1_half_n = secp256k1_n / 2

-- `copy(dst[at:], src)` where `src` fits.
abbrev pub copy_at : ℕ → Bytes → Bytes → Bytes
copy_at at src dst = take at dst ++ (src ++ drop (at + length src) dst)

-- `sig[32:64]` as a number.
unfoldable pub s_value : Signature → ℕ
s_value sig = set_bytes (take 32 (drop 32 sig))

-- The branch that replaces S by N - S and flips V.
unfoldable pub flip_signature : Signature → Bytes
flip_signature sig =
    let s_bytes = be_bytes (abs (sub_ℕ secp256k1_n (s_value sig))) in
    let zeroed = copy_at 32 (replicate 32 0) sig in
    let result = copy_at (64 - length s_bytes) s_bytes zeroed in
    take 64 result ++ map (λ v. bit_xor v 1) (drop 64 result)

unfoldable pub normalize_signature : Signature → Bytes
normalize_signature sig = if ltb secp256k1_half_n (s_value sig) then flip_signature sig else sig

unfoldable pub signatures_equal : Signature → Signature → Bool
unfolding normalize_signature
signatures_equal a b = bytes_equal (normalize_signature a) (normalize_signature b)
