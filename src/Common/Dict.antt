-- ===== src/Common/Dict.antt =====
-- A Go map keyed by strings, as an association list: `m[k]`, `m[k] = v` and `delete(m, k)`.
use text.Mathlib.Text.{◌==◌}
use text.Mathlib.TextEquality.{eq_iff}
use substreams_data_service.Common.{
  ◌≡◌, refl, ap, ◌≢◌, Bool-cases, inl, inr, List, [], ◌∷◌, Option, none, some, arith, if◌then◌else◌,
  String,
}

abbrev pub Dict {ℓ} : Type ℓ → Type ℓ
Dict V = List (String × V)

module _ {ℓ} {V : Type ℓ} where
  unfoldable pub lookup : String → Dict V → Option V
  lookup name [] = none
  lookup name ((other, v) ∷ rest) = if other == name then some v else lookup name rest

  unfoldable pub insert : String → V → Dict V → Dict V
  insert name v [] = (name, v) ∷ []
  insert name v ((other, held) ∷ rest) =
      if other == name then (name, v) ∷ rest else (other, held) ∷ insert name v rest

  unfoldable pub erase : String → Dict V → Dict V
  erase name [] = []
  erase name ((other, held) ∷ rest) =
      let kept = erase name rest in if other == name then kept else (other, held) ∷ kept

  pub lookup-insert :
      (name other : String) (v : V) (rest : Dict V)
      → lookup other (insert name v rest) ≡ (if name == other then some v else lookup other rest)
  unfolding lookup insert
  lookup-insert name other v [] = refl
  lookup-insert name other v ((first, held) ∷ rest) = ground (
    arith,
    eq_iff name other,
    eq_iff first name,
    eq_iff first other,
    lookup-insert name other v rest,
  )

  pub lookup-insert_self :
      (name : String) (v : V) (rest : Dict V) → lookup name (insert name v rest) ≡ some v
  lookup-insert_self name v rest = ground (arith, lookup-insert name name v rest, eq_iff name name)

  pub lookup-insert_ne :
      (name other : String) (v : V) (rest : Dict V)
      → name ≢ other
      → lookup other (insert name v rest) ≡ lookup other rest
  lookup-insert_ne name other v rest h =
      ground (arith, lookup-insert name other v rest, eq_iff name other)

  pub lookup-erase :
      (name other : String) (rest : Dict V)
      → lookup other (erase name rest) ≡ (if name == other then none else lookup other rest)
  unfolding lookup erase
  lookup-erase name other [] = ground arith
  lookup-erase name other ((first, held) ∷ rest) = ground (
    arith,
    eq_iff name other,
    eq_iff first name,
    eq_iff first other,
    lookup-erase name other rest,
  )

  -- Writing back the value that is there changes nothing.
  pub insert-lookup :
      (name : String) (v : V) (rest : Dict V)
      → lookup name rest ≡ some v
      → insert name v rest ≡ rest
  unfolding lookup insert
  insert-lookup name v [] h = cc
  insert-lookup name v ((other, held) ∷ rest) h = elim (Bool-cases (other == name)) [
    | inl same ↦
        let here : some held ≡ some v = rw⁻¹ h (rw same refl) in
        rw same (ground (arith, here, eq_iff other name))
    | inr differ ↦
        rw differ (ap (λ d. (other, held) ∷ d) (insert-lookup name v rest (ground arith)))
  ]
