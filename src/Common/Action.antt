-- ===== src/Common/Action.antt =====
-- A Go call on a mutable object: it returns how it ended and the object, which keeps what was
-- written before an error or a panic.
pub mod Keeps
pub mod Runs
use substreams_data_service.Common.{ℕ, ◌≡◌, refl}
use substreams_data_service.Common.Go.{Go, ok, err, panic}

abbrev pub Action : Type 0 → Type 0 → Type 0 → Type 0
Action S E A = S → Go E A × S

infixl 5 ◌>>=◌ ◌>>◌
unfoldable pub ◌>>=◌ : {S E A B : Type 0} → Action S E A → (A → Action S E B) → Action S E B
◌>>=◌ m f s =
    let (r, s') = m s in elim r [ ok a ↦ f a s' | err e ↦ (err e, s') | panic ↦ (panic, s') ]

unfoldable pub ◌>>◌ : {S E A B : Type 0} → Action S E A → Action S E B → Action S E B
unfolding ◌>>=◌
m >> k = m >>= λ _. k

unfoldable pub pure : {S E A : Type 0} → A → Action S E A
pure a s = (ok a, s)

unfoldable pub lift : {S E A : Type 0} → Go E A → Action S E A
lift m s = (m, s)

unfoldable pub gets : {S E A : Type 0} → (S → A) → Action S E A
gets f s = (ok (f s), s)

unfoldable pub modify : {S E : Type 0} → (S → S) → Action S E (Unit {0})
modify f s = (ok tt, f s)
