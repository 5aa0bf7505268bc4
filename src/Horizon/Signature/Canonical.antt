-- ===== src/Horizon/Signature/Canonical.antt =====
-- What `normalizeSignature` returns for 65 bytes.
use Prim.Native.Nat.{bit_xor}
use mathlib.Core.Path.{subst}
use substreams_data_service.Common.{
  ℕ, zero, suc, ◌+◌, ◌-◌, ◌*◌, ◌<◌, ◌≤◌, ◌^◌, ◌≡◌, refl, sym, ap, ◌∙◌, List, [], ◌∷◌, ◌++◌, Bool,
  true, false, Bool-cases, inl, inr, Bytes, length, take, drop, replicate, map, ltb, if◌then◌else◌,
  All, append_assoc, take-append, drop-append, take-append-drop, length-append, length-take,
  length-drop, arith,
}
use substreams_data_service.Common.Int.{abs, sub_ℕ}
use substreams_data_service.Common.Digits.{
  fixed, value, set_bytes, be_bytes, AreBytes, pad-digits, value-lt, length-digits-le, length-fixed,
}
use substreams_data_service.Horizon.Types.{Signature}
use substreams_data_service.Horizon.Signature.{
  secp256k1_n, secp256k1_half_n, s_value, flip_signature, normalize_signature,
}

module _ {A : Type 0} where
  take-append_more :
      (n k : ℕ) (xs ys : List A) → length xs ≡ n → take (n + k) (xs ++ ys) ≡ xs ++ take k ys
  take-append_more zero k [] ys h = ap (λ j. take j ys) (omega arith)
  take-append_more zero k (x ∷ xs) ys h = absurd (omega arith)
  take-append_more (suc n) k [] ys h = absurd (omega arith)
  take-append_more (suc n) k (x ∷ xs) ys h =
      let e : suc n + k ≡ suc (n + k) = omega arith in
      ap (λ j. take j (x ∷ (xs ++ ys))) e
      ∙ ap (λ t. x ∷ t) (take-append_more n k xs ys (omega arith))

  take-replicate :
      (k n : ℕ) (x : A) (ys : List A) → k ≤ n → take k (replicate n x ++ ys) ≡ replicate k x
  take-replicate zero n x ys h = refl
  take-replicate (suc k) zero x ys h = absurd (omega arith)
  take-replicate (suc k) (suc n) x ys h = ap (λ t. x ∷ t) (take-replicate k n x ys (omega arith))

parts : (s : ℕ) → abs (sub_ℕ secp256k1_n s) ≡ (secp256k1_n - s) + (s - secp256k1_n)
parts s = ground arith

halves : (s : ℕ) → ltb secp256k1_half_n s ≡ ltb secp256k1_n (2 * s)
halves s = ground arith

module _ {A : Type 0} (Holds : A → Type 0) where
  All-take : (n : ℕ) (xs : List A) → All Holds xs → All Holds (take n xs)
  All-take zero xs h = tt
  All-take (suc n) [] h = tt
  All-take (suc n) (x ∷ xs) h = (h.0, All-take n xs h.1)

  All-drop : (n : ℕ) (xs : List A) → All Holds xs → All Holds (drop n xs)
  All-drop zero xs h = h
  All-drop (suc n) [] h = tt
  All-drop (suc n) (x ∷ xs) h = All-drop n xs h.1

-- The bytes `bs`, with those from 32 to 64 read as a number, which above half the curve's order is
-- replaced by its distance from the order, while the lowest bit of the last byte is flipped.
abbrev pub canonical : Bytes → Bytes
canonical bs =
    let s = value 256 (take 32 (drop 32 bs)) in
    if ltb secp256k1_n (2 * s)
    then take 32 bs
      ++ (fixed 256 32 ((secp256k1_n - s) + (s - secp256k1_n))
          ++ map (λ v. bit_xor v 1) (drop 64 bs))
    else bs

module _ (h m l : Bytes) (long : length h ≡ 32) (wide : length m ≡ 32) (bytes : AreBytes m) where
  first : take 32 (h ++ (m ++ l)) ≡ h
  first = take-append 32 h (m ++ l) long

  second : take 32 (drop 32 (h ++ (m ++ l))) ≡ m
  second = ap (take 32) (drop-append 32 h (m ++ l) long) ∙ take-append 32 m l wide

  third : (x : Bytes) → length x ≡ 32 → drop 64 (h ++ (x ++ l)) ≡ l
  third x w =
      ap (drop 64) (sym (append_assoc h x l))
      ∙ drop-append 64 (h ++ x) l (omega (arith, length-append h x))

  third_take : (x : Bytes) → length x ≡ 32 → take 64 (h ++ (x ++ l)) ≡ h ++ x
  third_take x w =
      ap (take 64) (sym (append_assoc h x l))
      ∙ take-append 64 (h ++ x) l (omega (arith, length-append h x))

  -- A number `n` of 256 bits over the middle bytes.
  written :
      (n : ℕ)
      → n < 256 ^ 32
      → (let d = be_bytes n in
          let zeroed = h ++ (replicate 32 0 ++ l) in
          take (64 - length d) zeroed ++ (d ++ drop ((64 - length d) + length d) zeroed))
        ≡ h ++ (fixed 256 32 n ++ l)
  written n small =
      let d = be_bytes n in
      let le : length d ≤ 32 = length-digits-le 256 (omega arith) 32 n small in
      let k = 32 - length d in
      let e : 64 - length d ≡ 32 + k = omega (arith, le) in
      let e' : (64 - length d) + length d ≡ 64 = omega (arith, le) in
      ap
        (λ i.
          take i (h ++ (replicate 32 0 ++ l))
          ++ (d ++ drop ((64 - length d) + length d) (h ++ (replicate 32 0 ++ l))))
        e
      ∙ ap
          (λ i.
            take (32 + k) (h ++ (replicate 32 0 ++ l))
            ++ (d ++ drop i (h ++ (replicate 32 0 ++ l))))
          e'
      ∙ ap (λ x. x ++ (d ++ drop 64 (h ++ (replicate 32 0 ++ l))))
          (take-append_more 32 k h (replicate 32 0 ++ l) long
            ∙ ap (λ x. h ++ x) (take-replicate k 32 0 l (omega arith)))
      ∙ ap (λ x. (h ++ replicate k 0) ++ (d ++ x)) (third (replicate 32 0) refl)
      ∙ append_assoc h (replicate k 0) (d ++ l)
      ∙ ap (λ x. h ++ x) (sym (append_assoc (replicate k 0) d l))
      ∙ ap (λ x. h ++ (x ++ l)) (pad-digits 256 (omega arith) 32 n small)

  abbrev distance : ℕ
  distance = (secp256k1_n - value 256 m) + (value 256 m - secp256k1_n)

  small : distance < 256 ^ 32
  small =
      let bound : value 256 m < 256 ^ 32 =
        subst (λ j. value 256 m < 256 ^ j) wide (value-lt 256 (omega arith) m bytes) in
      omega (arith, bound)

  apart : abs (sub_ℕ secp256k1_n (s_value (h ++ (m ++ l)))) ≡ distance
  unfolding s_value
  apart = ap (λ x. abs (sub_ℕ secp256k1_n (set_bytes x))) second ∙ parts (value 256 m)

  flipped :
      flip_signature (h ++ (m ++ l)) ≡ h ++ (fixed 256 32 distance ++ map (λ v. bit_xor v 1) l)
  unfolding flip_signature
  flipped =
      let after : Bytes → Bytes =
        λ result. take 64 result ++ map (λ v. bit_xor v 1) (drop 64 result) in
      let zeroed : take 32 (h ++ (m ++ l)) ++ (replicate 32 0 ++ drop 64 (h ++ (m ++ l)))
          ≡ h ++ (replicate 32 0 ++ l) =
        ap (λ x. x ++ (replicate 32 0 ++ drop 64 (h ++ (m ++ l)))) first
        ∙ ap (λ x. h ++ (replicate 32 0 ++ x)) (third m wide) in
      let filled : ℕ → Bytes → Bytes = λ n z.
        take (64 - length (be_bytes n)) z
        ++ (be_bytes n ++ drop ((64 - length (be_bytes n)) + length (be_bytes n)) z) in
      let size = length-fixed 256 (omega arith) 32 distance in
      ap
        (λ n.
          after (filled n (take 32 (h ++ (m ++ l)) ++ (replicate 32 0 ++ drop 64 (h ++ (m ++ l))))))
        apart
      ∙ ap (λ z. after (filled distance z)) zeroed
      ∙ ap after (written distance small)
      ∙ ap (λ x. x ++ map (λ v. bit_xor v 1) (drop 64 (h ++ (fixed 256 32 distance ++ l))))
          (third_take (fixed 256 32 distance) size)
      ∙ ap (λ x. (h ++ fixed 256 32 distance) ++ map (λ v. bit_xor v 1) x)
          (third (fixed 256 32 distance) size)
      ∙ append_assoc h (fixed 256 32 distance) (map (λ v. bit_xor v 1) l)

  spelled : canonical (h ++ (m ++ l)) ≡ (
      if ltb secp256k1_n (2 * value 256 m)
      then h ++ (fixed 256 32 distance ++ map (λ v. bit_xor v 1) l)
      else h ++ (m ++ l))
  spelled = rw (first, second, third m wide) refl

  tested :
      (b : Bool)
      → ltb secp256k1_n (2 * value 256 m) ≡ b
      → ltb secp256k1_half_n (s_value (h ++ (m ++ l))) ≡ b
  unfolding s_value
  tested b e = ap (λ x. ltb secp256k1_half_n (set_bytes x)) second ∙ halves (value 256 m) ∙ e

  pub of_parts : normalize_signature (h ++ (m ++ l)) ≡ canonical (h ++ (m ++ l))
  unfolding normalize_signature
  of_parts = elim (Bool-cases (ltb secp256k1_n (2 * value 256 m))) [
    | inl e ↦ rw (tested true e) (flipped ∙ sym (rw (spelled, e) refl))
    | inr e ↦ rw (tested false e) (sym (rw (spelled, e) refl))
  ]

whole : (bs : Bytes) → take 32 bs ++ (take 32 (drop 32 bs) ++ drop 32 (drop 32 bs)) ≡ bs
whole bs = ap (λ x. take 32 bs ++ x) (take-append-drop 32 (drop 32 bs)) ∙ take-append-drop 32 bs

-- For 65 bytes the code's normal form is this one.
pub normalize_signature-canonical :
    (sig : Signature) → length sig ≡ 65 → AreBytes sig → normalize_signature sig ≡ canonical sig
normalize_signature-canonical sig size bytes =
    let parts =
      of_parts (take 32 sig) (take 32 (drop 32 sig)) (drop 32 (drop 32 sig))
        (omega (arith, length-take 32 sig))
        (omega (arith, length-take 32 (drop 32 sig), length-drop 32 sig))
        (All-take (λ b. b < 256) 32 (drop 32 sig) (All-drop (λ b. b < 256) 32 sig bytes)) in
    sym (ap normalize_signature (whole sig)) ∙ parts ∙ ap canonical (whole sig)
