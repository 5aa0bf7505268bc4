-- ===== src/Common/Action/Runs.antt =====
-- The run of a `do` block whose steps succeed, one step at a time.
use substreams_data_service.Common.{◌≡◌, refl, ap, sym}
use mathlib.Core.Path.{subst}
use substreams_data_service.Common.Go.{Go, ok, err, panic}
use substreams_data_service.Common.Action.{Action, lift, ◌>>=◌, ◌>>◌}

module _ {S E A B : Type 0} where
  step :
      (f : A → Action S E B) (s : S) (p : Go E A × S) {s' : S} {a : A} {r : Go E B × S}
      → p ≡ (ok a, s')
      → f a s' ≡ r
      → ◌>>=◌ (λ (_ : S). p) f s ≡ r
  unfolding ◌>>=◌
  step f s p {s'} {a} {r} h k = subst (λ q. ◌>>=◌ (λ (_ : S). q) f s ≡ r) (sym h) k

  pub >>=-run :
      (m : Action S E A) (f : A → Action S E B) (s : S) {s' : S} {a : A} {r : Go E B × S}
      → m s ≡ (ok a, s')
      → f a s' ≡ r
      → (m >>= f) s ≡ r
  unfolding ◌>>=◌
  >>=-run m f s h k = step f s (m s) h k

  pub >>-run :
      (m : Action S E A) (f : Action S E B) (s : S) {s' : S} {a : A} {r : Go E B × S}
      → m s ≡ (ok a, s')
      → f s' ≡ r
      → (m >> f) s ≡ r
  unfolding ◌>>◌
  >>-run m f s h k = >>=-run m (λ _. f) s h k

  pub lift-run :
      (m : Go E A) (f : A → Action S E B) (s : S) {a : A} {r : Go E B × S}
      → m ≡ ok a
      → f a s ≡ r
      → (lift m >>= f) s ≡ r
  unfolding lift ◌>>=◌
  lift-run m f s h k = step f s (m, s) (ap (λ x. (x, s)) h) k

-- Inversion of a `do` block that succeeded.
module _ {S E A B : Type 0} where
  step_inv :
      (f : A → Action S E B) (s : S) (p : Go E A × S) {b : B} {t : S}
      → ◌>>=◌ (λ (_ : S). p) f s ≡ (ok b, t)
      → (a : A) × (s' : S) × (p ≡ (ok a, s')) × (f a s' ≡ (ok b, t))
  unfolding ◌>>=◌
  step_inv f s (ok a, s') h = (a, s', refl, h)
  step_inv f s (err e, s') {b} h = let bad : ◌≡◌ {A = Go E B} (err e) (ok b) = ap (λ x. x.0) h in cc
  step_inv f s (panic, s') {b} h = let bad : ◌≡◌ {A = Go E B} panic (ok b) = ap (λ x. x.0) h in cc

  pub >>=-inv :
      (m : Action S E A) (f : A → Action S E B) (s : S) {b : B} {t : S}
      → (m >>= f) s ≡ (ok b, t)
      → (a : A) × (s' : S) × (m s ≡ (ok a, s')) × (f a s' ≡ (ok b, t))
  unfolding ◌>>=◌
  >>=-inv m f s h = step_inv f s (m s) h

  pub lift-inv :
      (m : Go E A) (f : A → Action S E B) (s : S) {b : B} {t : S}
      → (lift m >>= f) s ≡ (ok b, t)
      → (a : A) × (m ≡ ok a) × (f a s ≡ (ok b, t))
  unfolding lift ◌>>=◌
  lift-inv (ok a) f s h = (a, refl, h)
  lift-inv (err e) f s {b} h = let bad : ◌≡◌ {A = Go E B} (err e) (ok b) = ap (λ x. x.0) h in cc
  lift-inv panic f s {b} h = let bad : ◌≡◌ {A = Go E B} panic (ok b) = ap (λ x. x.0) h in cc

  pub >>-inv :
      (m : Action S E A) (f : Action S E B) (s : S) {b : B} {t : S}
      → (m >> f) s ≡ (ok b, t)
      → (a : A) × (s' : S) × (m s ≡ (ok a, s')) × (f s' ≡ (ok b, t))
  unfolding ◌>>◌
  >>-inv m f s h = >>=-inv m (λ _. f) s h
