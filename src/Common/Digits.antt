-- ===== src/Common/Digits.antt =====
-- Positional notation: the digits of a number in a base, most significant first, and the number
-- that digits stand for. `big.Int`'s `Bytes` and `SetBytes` are base 256, its decimal text base 10.
use native.Mathlib.Nat.{
  mod-lt, div-add-mod', div-lt_self, div-lt_iff_lt-mul, pow-suc, pow-zero, mul-le-mul_right,
  mul-add-div_right, div-eq_of_lt, zero-div, add-zero, mod-eq_of_lt,
}
use substreams_data_service.Common.{
  ℕ, zero, suc, ◌+◌, ◌-◌, ◌*◌, ◌/◌, ◌%◌, ◌^◌, ◌≤◌, ◌<◌, ◌≡◌, ◌≢◌, refl, ◌∙◌, ap, sym, arith, List,
  [], ◌∷◌, ◌++◌, append_assoc, append-nil, length, length-append, length-replicate, true, replicate,
  replicate-append, ◌==◌, ==_iff, if◌then◌else◌, Bool-cases, inl, inr, All, Bytes,
}

-- The loop writes the digits of `n` before those written already; `n` rounds are enough.
digits_from : ℕ → ℕ → ℕ → List ℕ → List ℕ
digits_from base zero n out = out
digits_from base (suc f) n out =
    let rest = digits_from base f (n / base) ((n % base) ∷ out) in if n == 0 then out else rest

-- No digits for zero, and no leading zero.
unfoldable pub digits : ℕ → ℕ → List ℕ
unfolding digits_from
digits base n = digits_from base n n []

-- The number that `ds` spell behind `acc`.
abbrev pub value_from : ℕ → ℕ → List ℕ → ℕ
value_from base acc [] = acc
value_from base acc (d ∷ ds) = value_from base (acc * base + d) ds

abbrev pub value : ℕ → List ℕ → ℕ
value base ds = value_from base 0 ds

-- Exactly `k` digits, the higher ones cut off.
unfoldable pub fixed : ℕ → ℕ → ℕ → List ℕ
fixed base zero n = []
fixed base (suc k) n = fixed base k (n / base) ++ (n % base) ∷ []

div_lt : (base n f : ℕ) → 2 ≤ base → n ≢ 0 → n ≤ suc f → n / base ≤ f
div_lt base n f hb hn h = omega (arith, div-lt_self {n = n} {k = base} (omega arith) hb)

div_lt_pow : (base n k : ℕ) → 2 ≤ base → n < base ^ suc k → n / base < base ^ k
div_lt_pow base n k hb h =
    (div-lt_iff_lt-mul {k = base} {x = n} {y = base ^ k} (omega arith)).1 (rw pow-suc at h)

module _ (base : ℕ) (wide : 2 ≤ base) where
  value_from-digits_from :
      (f n : ℕ) (out : List ℕ)
      → n ≤ f
      → value_from base 0 (digits_from base f n out) ≡ value_from base n out
  unfolding digits_from
  value_from-digits_from zero n out h =
      let e : 0 ≡ n = omega arith in ap (λ k. value_from base k out) e
  value_from-digits_from (suc f) n out h = elim (Bool-cases (n == 0)) [
    | inl z ↦ let e : 0 ≡ n = sym ((==_iff n 0).0 z) in rw z (ap (λ k. value_from base k out) e)
    | inr nz ↦ rw nz (
        value_from-digits_from f (n / base) ((n % base) ∷ out)
          (div_lt base n f wide (ground arith) h)
        ∙ ap (λ k. value_from base k out) (div-add-mod' n base))
  ]

  -- The digits of a number stand for it.
  pub value-digits : (n : ℕ) → value base (digits base n) ≡ n
  unfolding digits
  value-digits n = value_from-digits_from n n [] (omega arith)

  pub fixed-zero : (k : ℕ) → fixed base k 0 ≡ replicate k 0
  unfolding fixed
  fixed-zero zero = refl
  fixed-zero (suc k) =
      rw
        (
          zero-div base,
          mod-eq_of_lt {n = 0} {m = base} (omega arith),
          fixed-zero k,
          replicate-append {A = ℕ} k 1 0,
        )
        (ap (λ j. replicate {A = ℕ} j 0) suc_last)
    where
      suc_last : k + 1 ≡ suc k
      suc_last = omega arith

  pad_zero :
      (k n : ℕ) (out : List ℕ)
      → n ≡ 0
      → replicate (k + length out - length out) 0 ++ out ≡ fixed base k n ++ out
  pad_zero k n out z =
      let e : k + length out - length out ≡ k = omega arith in rw (e, z, fixed-zero k)

  pad_from :
      (f k n : ℕ) (out : List ℕ)
      → n ≤ f
      → n < base ^ k
      → replicate (k + length out - length (digits_from base f n out)) 0 ++ digits_from base f n out
        ≡ fixed base k n ++ out
  unfolding digits_from fixed
  pad_from zero k n out h b = pad_zero k n out (omega arith)
  pad_from (suc f) zero n out h b =
      let z : n ≡ 0 = omega (arith, pow-zero base) in
      let t : (n == 0) ≡ true = (==_iff n 0).1 z in rw t (pad_zero 0 n out z)
  pad_from (suc f) (suc k) n out h b = elim (Bool-cases (n == 0)) [
    | inl z ↦ rw z (pad_zero (suc k) n out ((==_iff n 0).0 z))
    | inr nz ↦
        let more = (n % base) ∷ out in
        let e : suc k + length out ≡ k + length more = omega arith in
        rw (nz, e, append_assoc)
          (pad_from f k (n / base) more (div_lt base n f wide (ground arith) h)
            (div_lt_pow base n k wide b))
  ]

  -- A fixed number of digits is what padding with zeros on the left gives.
  pub pad-digits :
      (k n : ℕ)
      → n < base ^ k
      → replicate (k - length (digits base n)) 0 ++ digits base n ≡ fixed base k n
  unfolding digits
  pad-digits k n b =
      let e : k ≡ k + 0 = omega arith in
      ap (λ j. replicate (j - length (digits base n)) 0 ++ digits base n) e
      ∙ pad_from n k n [] (omega arith) b
      ∙ append-nil (fixed base k n)

  digits_from-All :
      (f n : ℕ) (out : List ℕ)
      → All (λ d. d < base) out
      → All (λ d. d < base) (digits_from base f n out)
  unfolding digits_from
  digits_from-All zero n out h = h
  digits_from-All (suc f) n out h = ground (
    arith,
    mod-lt n {m = base},
    digits_from-All f (n / base) ((n % base) ∷ out) (mod-lt n {m = base} (omega arith), h),
  )

  pub digits-All : (n : ℕ) → All (λ d. d < base) (digits base n)
  unfolding digits
  digits-All n = digits_from-All n n [] tt

  pub length-fixed : (k n : ℕ) → length (fixed base k n) ≡ k
  unfolding fixed
  length-fixed zero n = refl
  length-fixed (suc k) n =
      omega (
        arith,
        length-append (fixed base k (n / base)) ((n % base) ∷ []),
        length-fixed k (n / base),
      )

  value_from-append :
      (acc : ℕ) (ds es : List ℕ)
      → value_from base acc (ds ++ es) ≡ value_from base (value_from base acc ds) es
  value_from-append acc [] es = refl
  value_from-append acc (d ∷ ds) es = value_from-append (acc * base + d) ds es

  pub value-fixed : (k n : ℕ) → n < base ^ k → value base (fixed base k n) ≡ n
  unfolding fixed
  value-fixed zero n h = omega (arith, pow-zero base)
  value-fixed (suc k) n h =
      rw
        (
          value_from-append 0 (fixed base k (n / base)) ((n % base) ∷ []),
          value-fixed k (n / base) (div_lt_pow base n k wide h),
        )
        (div-add-mod' n base)

  fixed-value_from :
      (j acc : ℕ) (ds : List ℕ)
      → All (λ d. d < base) ds
      → fixed base (j + length ds) (value_from base acc ds) ≡ fixed base j acc ++ ds
  unfolding fixed
  fixed-value_from j acc [] h = rw (add-zero, append-nil)
  fixed-value_from j acc (d ∷ ds) h =
      let q : (acc * base + d) / base ≡ acc =
        mul-add-div_right {m = base} (omega arith) acc d
        ∙ ap (◌+◌ acc) (div-eq_of_lt {n = d} {m = base} h.0)
        ∙ add-zero acc in
      let r : (acc * base + d) % base ≡ d =
        omega (arith, div-add-mod' (acc * base + d) base, ap (λ (t : ℕ). t * base) q) in
      let e : j + suc (length ds) ≡ suc j + length ds = omega arith in
      rw (e, fixed-value_from (suc j) (acc * base + d) ds h.1, fixed, q, r, append_assoc)

  -- The fixed-width form of the number that `ds` spell is `ds`.
  pub fixed-value :
      (k : ℕ) (ds : List ℕ)
      → length ds ≡ k
      → All (λ d. d < base) ds
      → fixed base k (value base ds) ≡ ds
  unfolding fixed
  fixed-value k ds h a =
      let e : k ≡ 0 + length ds = omega arith in
      ap (λ j. fixed base j (value base ds)) e ∙ fixed-value_from 0 0 ds a

  value_from-lt :
      (acc : ℕ) (ds : List ℕ)
      → All (λ d. d < base) ds
      → value_from base acc ds < suc acc * base ^ length ds
  value_from-lt acc [] a = omega (arith, ap (λ (t : ℕ). suc acc * t) (pow-zero base))
  value_from-lt acc (d ∷ ds) a =
      let step : suc (acc * base + d) ≤ suc acc * base = omega (arith, a.0) in
      omega (
        arith,
        value_from-lt (acc * base + d) ds a.1,
        mul-le-mul_right (base ^ length ds) step,
        ap (λ (t : ℕ). suc acc * t) (pow-suc base (length ds)),
      )

  pub value-lt : (ds : List ℕ) → All (λ d. d < base) ds → value base ds < base ^ length ds
  value-lt ds a = omega (arith, value_from-lt 0 ds a)

  pub length-digits-le : (k n : ℕ) → n < base ^ k → length (digits base n) ≤ k
  length-digits-le k n b = omega (
    arith,
    ap length (pad-digits k n b),
    length-append (replicate (k - length (digits base n)) 0) (digits base n),
    length-replicate {A = ℕ} (k - length (digits base n)) 0,
    length-fixed k n,
  )

  pub value-padded : (k n : ℕ) → value base (replicate k 0 ++ digits base n) ≡ n
  value-padded zero n = value-digits n
  value-padded (suc k) n =
      let e : 0 * base + 0 ≡ 0 = omega arith in
      ap (λ a. value_from base a (replicate k 0 ++ digits base n)) e ∙ value-padded k n

-- `x.Bytes()` of a `big.Int` with absolute value `n`, and `SetBytes`.
abbrev pub be_bytes : ℕ → Bytes
be_bytes n = digits 256 n

abbrev pub set_bytes : Bytes → ℕ
set_bytes bs = value 256 bs

-- Each element is a byte.
abbrev pub AreBytes : Bytes → Type 0
AreBytes bs = All (λ b. b < 256) bs
