-- ===== src/Horizon/Totals/Exact.antt =====
-- What `aggregate` computes: the sum and the latest timestamp, or an overflow.
use substreams_data_service.Common.{
  ℕ, ◌≡◌, ◌⊎◌, ◌∙◌, List, [], ◌∷◌, none, some, All, arith, max, Option-cases, inl, inr,
  if◌then◌else◌,
}
use substreams_data_service.Common.Int.{
  ℤ, pos, ◌+ℤ◌, ◌≤ℤ◌, ltb_ℤ, int_laws, +ℤ_assoc, +ℤ_zero, +ℤ_parts,
}
use substreams_data_service.Common.Go.{Ptr, ok, err, panic, deref, >>=-eq-ok, deref-eq-ok}
use substreams_data_service.Horizon.Types.{
  Receipt, Rav, SignedReceipt, SignedRav, Error, max_uint128,
}
use substreams_data_service.Horizon.Totals.{Totals, add_receipts, aggregate, initial_totals}

abbrev pub or_zero : Ptr ℤ → ℤ
or_zero none = pos 0
or_zero (some v) = v

abbrev pub value_of : Ptr Receipt → ℤ
value_of none = pos 0
value_of (some m) = or_zero m.value

abbrev pub timestamp_of : Ptr Receipt → ℕ
timestamp_of none = 0
timestamp_of (some m) = m.timestamp_ns

-- The message and its value are there.
abbrev pub HasValue : SignedReceipt → Type 0
HasValue r = (m : Receipt) × (v : ℤ) × (r.message ≡ some m) × (m.value ≡ some v)

unfoldable pub sum_values : List SignedReceipt → ℤ
sum_values [] = pos 0
sum_values (r ∷ rs) = value_of r.message +ℤ sum_values rs

unfoldable pub latest : ℕ → List SignedReceipt → ℕ
latest t [] = t
latest t (r ∷ rs) = latest (max t (timestamp_of r.message)) rs

HasValue-cases :
    (r : SignedReceipt)
    → HasValue r
      ⊎ ((t : ℕ) (v : ℤ) (rs : List SignedReceipt) → add_receipts (t, v) (r ∷ rs) ≡ panic)
unfolding add_receipts
HasValue-cases r = elim (Option-cases r.message) [
  | inl e ↦ inr (λ t v rs. ground arith)
  | inr (m, e) ↦ elim (Option-cases m.value) [
    | inl f ↦ inr (λ t v rs. ground arith)
    | inr (x, f) ↦ inl (m, x, e, f)
  ]
]

-- One round of the loop.
add_receipts_step :
    (t : ℕ) (v : ℤ) (r : SignedReceipt) (rs : List SignedReceipt)
    → HasValue r
    → add_receipts (t, v) (r ∷ rs) ≡ (
        if ltb_ℤ (pos max_uint128) (v +ℤ value_of r.message)
        then err Error.aggregate_overflow
        else add_receipts (max t (timestamp_of r.message), v +ℤ value_of r.message) rs)
unfolding add_receipts
add_receipts_step t v r rs (m, x, e, f) = ground arith

-- A loop that succeeds has added every value, kept the latest timestamp and met no nil pointer.
pub add_receipts_sound :
    (t : ℕ) (v : ℤ) (rs : List SignedReceipt) {out : Totals}
    → add_receipts (t, v) rs ≡ ok out
    → All HasValue rs × (out.0 ≡ latest t rs) × (out.1 ≡ v +ℤ sum_values rs)
unfolding sum_values latest
add_receipts_sound t v [] h = unfold add_receipts in grind int_laws
add_receipts_sound t v (r ∷ rs) {out} h = elim (HasValue-cases r) [
  | inl has ↦
      let step = add_receipts_step t v r rs has in
      let v' = v +ℤ value_of r.message in
      let t' = max t (timestamp_of r.message) in
      let passed : add_receipts (t', v') rs ≡ ok out = ground (arith, step) in
      let (all, late, sum) = add_receipts_sound t' v' rs {out = out} passed in
      ((has, all), late, sum ∙ +ℤ_assoc v (value_of r.message) (sum_values rs))
  | inr nil ↦ cc (nil t v rs)
]

-- Its result is within 128 bits.
pub add_receipts_fits :
    (t : ℕ) (v : ℤ) (rs : List SignedReceipt) {out : Totals}
    → v ≤ℤ pos max_uint128
    → add_receipts (t, v) rs ≡ ok out
    → out.1 ≤ℤ pos max_uint128
add_receipts_fits t v [] fits h = unfold add_receipts in grind arith
add_receipts_fits t v (r ∷ rs) {out} fits h = elim (HasValue-cases r) [
  | inl has ↦
      let step = add_receipts_step t v r rs has in
      let v' = v +ℤ value_of r.message in
      let t' = max t (timestamp_of r.message) in
      let passed : add_receipts (t', v') rs ≡ ok out = ground (arith, step) in
      let small : v' ≤ℤ pos max_uint128 = ground (arith, step) in
      add_receipts_fits t' v' rs {out = out} small passed
  | inr nil ↦ cc (nil t v rs)
]

-- The last round has checked the sum, whatever it started from.
pub add_receipts_fits_cons :
    (t : ℕ) (v : ℤ) (r : SignedReceipt) (rs : List SignedReceipt) {out : Totals}
    → add_receipts (t, v) (r ∷ rs) ≡ ok out
    → out.1 ≤ℤ pos max_uint128
add_receipts_fits_cons t v r rs {out} h = elim (HasValue-cases r) [
  | inl has ↦
      let step = add_receipts_step t v r rs has in
      let v' = v +ℤ value_of r.message in
      let t' = max t (timestamp_of r.message) in
      add_receipts_fits t' v' rs {out = out} (ground (arith, step)) (ground (arith, step))
  | inr nil ↦ cc (nil t v rs)
]

abbrev pub NonNegative : SignedReceipt → Type 0
NonNegative r = pos 0 ≤ℤ value_of r.message

sum_values_nonneg : (rs : List SignedReceipt) → All NonNegative rs → pos 0 ≤ℤ sum_values rs
unfolding sum_values
sum_values_nonneg [] p = omega arith
sum_values_nonneg (r ∷ rs) p = omega (int_laws, sum_values_nonneg rs p.1)

-- With no nil pointer and no negative value, the loop succeeds exactly when the whole sum fits.
pub add_receipts_total :
    (t : ℕ) (v : ℤ) (rs : List SignedReceipt)
    → v ≤ℤ pos max_uint128
    → All HasValue rs
    → All NonNegative rs
    → add_receipts (t, v) rs ≡ (
        if ltb_ℤ (pos max_uint128) (v +ℤ sum_values rs)
        then err Error.aggregate_overflow
        else ok (latest t rs, v +ℤ sum_values rs))
unfolding sum_values latest
add_receipts_total t v [] fits has p = unfold add_receipts in rw (+ℤ_zero v) (ground arith)
add_receipts_total t v (r ∷ rs) fits has p =
    let v' = v +ℤ value_of r.message in
    let t' = max t (timestamp_of r.message) in
    let e = +ℤ_assoc v (value_of r.message) (sum_values rs) in
    rw (add_receipts_step t v r rs has.0, ← e)
      (ground
        (arith, +ℤ_parts v' (sum_values rs), sum_values_nonneg rs p.1, add_receipts_total t' v' rs))

-- A voucher made from the first receipt and the totals.
abbrev pub voucher : Receipt → Totals → Rav
voucher first totals = record {
  collection_id = first.collection_id;
  payer = first.payer;
  service_provider = first.service_provider;
  data_service = first.data_service;
  timestamp_ns = totals.0;
  value_aggregate = some totals.1;
  metadata = [];
}

-- From totals that fit and receipts with values, none of them negative, `aggregate` returns the
-- voucher of the whole sum and the latest timestamp, or an overflow if the sum exceeds 128 bits.
pub aggregate_total :
    (t : ℕ) (v : ℤ) (first : Receipt) (head : SignedReceipt) (rest : List SignedReceipt)
    (previous : Ptr SignedRav)
    → initial_totals previous ≡ ok (t, v)
    → head.message ≡ some first
    → v ≤ℤ pos max_uint128
    → All HasValue (head ∷ rest)
    → All NonNegative (head ∷ rest)
    → aggregate head rest previous ≡ (
        if ltb_ℤ (pos max_uint128) (v +ℤ sum_values (head ∷ rest))
        then err Error.aggregate_overflow
        else ok (voucher first (latest t (head ∷ rest), v +ℤ sum_values (head ∷ rest))))
unfolding aggregate
aggregate_total t v first head rest previous start here fits has p =
    ground (arith, start, here, add_receipts_total t v (head ∷ rest) fits has p)

-- A successful `aggregate` starts from the previous voucher's totals and ends with the voucher of
-- the first receipt.
pub aggregate_sound :
    (head : SignedReceipt) (rest : List SignedReceipt) (previous : Ptr SignedRav) {rav : Rav}
    → aggregate head rest previous ≡ ok rav
    → (start : Totals) × (totals : Totals) × (first : Receipt) × (initial_totals previous
        ≡ ok start)
      × (add_receipts start (head ∷ rest) ≡ ok totals)
      × (head.message ≡ some first)
      × (rav ≡ voucher first totals)
unfolding aggregate
aggregate_sound head rest previous h =
    let (start, begun, h₁) = >>=-eq-ok (initial_totals previous) _ h in
    let (totals, added, h₂) = >>=-eq-ok (add_receipts start (head ∷ rest)) _ h₁ in
    let (first, here, h₃) = >>=-eq-ok (deref head.message) _ h₂ in
    (start, totals, first, begun, added, deref-eq-ok head.message here, cc h₃)
