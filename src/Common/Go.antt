-- ===== src/Common/Go.antt =====
-- How a Go call ends: with a result, with an error, or with a panic such as the dereference of a
-- nil pointer. `Ptr` is a pointer that may be nil. An `Action` also carries the state, which keeps
-- what was written before an error or a panic.
use substreams_data_service.Common.{
  ◌≡◌, refl, Bool, true, false, Option, none, some, arith, inl, inr, ◌⊎◌, if◌then◌else◌,
}

abbrev pub Ptr {ℓ} : Type ℓ → Type ℓ
Ptr A = Option A

pub data Go (E A : Type 0) : Type 0 where
  ok : A → Go E A
  err : E → Go E A
  panic : Go E A

infixl 5 ◌>>=◌ ◌>>◌
abbrev pub ◌>>=◌ : {E A B : Type 0} → Go E A → (A → Go E B) → Go E B
ok a >>= f = f a
err e >>= f = err e
panic >>= f = panic

abbrev pub ◌>>◌ : {E A B : Type 0} → Go E A → Go E B → Go E B
m >> k = m >>= λ _. k

-- `p.field` or `*p`
abbrev pub deref : {E A : Type 0} → Ptr A → Go E A
deref none = panic
deref (some a) = ok a

-- `if c { return e }`
abbrev pub err_if : {E : Type 0} → Bool → E → Go E (Unit {0})
err_if true e = err e
err_if false e = ok tt

-- Inversion of a call that succeeded.
pub >>=-eq-ok :
    {E A B : Type 0} (call : Go E A) (after : A → Go E B) {out : B}
    → (call >>= after) ≡ ok out
    → (a : A) × (call ≡ ok a) × (after a ≡ ok out)
>>=-eq-ok (ok a) after ended = (a, refl, ended)
>>=-eq-ok (err e) after ended = cc
>>=-eq-ok panic after ended = cc

pub deref-eq-ok : {E A : Type 0} (p : Ptr A) {a : A} → deref {E = E} p ≡ ok a → p ≡ some a
deref-eq-ok p h = ground arith

pub >>-eq-ok :
    {E B : Type 0} (m : Go E (Unit {0})) (k : Go E B) {b : B}
    → (m >> k) ≡ ok b
    → (m ≡ ok tt) × (k ≡ ok b)
>>-eq-ok (ok _) k h = (refl, h)
>>-eq-ok (err e) k h = cc
>>-eq-ok panic k h = cc

pub >>=-if :
    {E A B : Type 0} (c : Bool) (e : E) (a : A) (f : A → Go E B)
    → ((if c then err e else ok a) >>= f) ≡ (if c then err e else f a)
>>=-if true e a f = refl
>>=-if false e a f = refl

pub Go-cases :
    {E A : Type 0} (m : Go E A) → ((a : A) × (m ≡ ok a)) ⊎ (((e : E) × (m ≡ err e)) ⊎ (m ≡ panic))
Go-cases (ok a) = inl (a, refl)
Go-cases (err e) = inr (inl (e, refl))
Go-cases panic = inr (inr refl)

-- A call that succeeds, followed by one that does.
pub >>=-ok :
    {E A B : Type 0} (m : Go E A) (f : A → Go E B) {a : A}
    → m ≡ ok a
    → (b : B) × (f a ≡ ok b)
    → (b : B) × ((m >>= f) ≡ ok b)
>>=-ok m f h (b, k) = (b, rw h k)
