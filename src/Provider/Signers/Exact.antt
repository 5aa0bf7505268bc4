-- ===== src/Provider/Signers/Exact.antt =====
-- The steps on signatures and addresses, in both directions.
use substreams_data_service.Common.{
  ◌≡◌, ◌↔◌, ◌∙◌, refl, sym, ap, none, some, true, arith, String, inl, inr, Bool-cases, Option-cases,
}
use substreams_data_service.Common.Go.{Ptr, ok, err, panic, Go-cases}
use substreams_data_service.Horizon.Types.{Address, Error, Rav, SignedRav}
use substreams_data_service.Horizon.EthGo.{EthGo}
use substreams_data_service.Sidecar.Convert.{addresses_equal}
use substreams_data_service.Common.{bytes_equal_iff}
use substreams_data_service.Provider.State.{
  ProviderSidecar, is_accepted_signer, verify_rav_signature,
}
use substreams_data_service.Provider.Signers.{require_message, require_signer}

pub sidecar_addresses_equal_iff : (a b : Address) → (addresses_equal a b ≡ true) ↔ (a ≡ b)
unfolding addresses_equal
sidecar_addresses_equal_iff a b = bytes_equal_iff a b

pub require_message-eq :
    {E : Type 0} (e : E) (r : SignedRav) {m : Rav}
    → r.message ≡ some m
    → require_message e (some r) ≡ ok (r, m)
unfolding require_message
require_message-eq e r h = simp h

pub require_message-ok :
    {E : Type 0} (e : E) (p : Ptr SignedRav) {pair : SignedRav × Rav}
    → require_message e p ≡ ok pair
    → (p ≡ some pair.0) × (pair.0.message ≡ some pair.1)
unfolding require_message
require_message-ok e none q = cc
require_message-ok e (some r) {pair} q = elim (Option-cases r.message) [
  | inl h ↦ let bad : require_message e (some r) ≡ err e = simp h in cc
  | inr (m, h) ↦
      let same : (r, m) ≡ pair = ground (arith, require_message-eq e r h) in
      (ap (λ x. some x.0) same, ap (λ x. x.0.message) (sym same) ∙ h ∙ ap (λ x. some x.1) same)
]

module _ (eth : EthGo) where
  pub require_signer-eq :
      {E : Type 0} (f : Error → E) (g : String → E) (sc : ProviderSidecar) (rav : SignedRav)
      {a : Address}
      → verify_rav_signature eth sc rav ≡ ok a
      → is_accepted_signer eth sc a ≡ true
      → require_signer eth f g sc rav ≡ ok a
  unfolding require_signer
  require_signer-eq f g sc rav p q = rw (require_signer, p, q) refl

  pub require_signer-ok :
      {E : Type 0} (f : Error → E) (g : String → E) (sc : ProviderSidecar) (rav : SignedRav)
      {a : Address}
      → require_signer eth f g sc rav ≡ ok a
      → (verify_rav_signature eth sc rav ≡ ok a) × (is_accepted_signer eth sc a ≡ true)
  unfolding require_signer
  require_signer-ok {E} f g sc rav {a} q =
      let r = verify_rav_signature eth sc rav in
      elim (Go-cases r) [
        | inl (b, e) ↦ elim (Bool-cases (is_accepted_signer eth sc b)) [
          | inl c ↦
              let made = require_signer-eq f g sc rav e c in
              let same : b ≡ a = ground (arith, made) in (e ∙ ap ok same, rw⁻¹ same c)
          | inr c ↦
              let bad : require_signer eth f g sc rav ≡ err (g (eth.pretty b)) =
                rw (require_signer, e, c) refl in
              cc
        ]
        | inr (inl (x, e)) ↦
            let bad : require_signer eth f g sc rav ≡ err (f x) = rw (require_signer, e) refl in cc
        | inr (inr e) ↦
            let bad : require_signer eth f g sc rav ≡ panic = rw (require_signer, e) refl in cc
      ]
