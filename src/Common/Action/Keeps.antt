-- ===== src/Common/Action/Keeps.antt =====
-- A relation between the object before a call and the object after it, kept by each step of a
-- `do` block, is kept by the whole block, however it ends.
use substreams_data_service.Common.Go.{Go, ok, err, panic}
use substreams_data_service.Common.Action.{Action, ◌>>=◌, ◌>>◌, pure, lift, gets, modify}

-- Every call of the action leaves an object that is related to the one before.
pub record Keeps {S E A : Type 0} (R : S → S → Type 0) (m : Action S E A) : Type 0 where
  pub run : (s : S) → R s (m s).1

-- A relation that composes.
pub record Preorder {S : Type 0} (R : S → S → Type 0) : Type 0 where
  pub rel_refl : (s : S) → R s s
  pub rel_trans : (s t u : S) → R s t → R t u → R s u

module _ {S : Type 0} {R : S → S → Type 0} (o : Preorder R) where
  after :
      {E A B : Type 0} (f : A → Action S E B) (s : S) (p : Go E A × S)
      → R s p.1
      → ((a : A) → Keeps R (f a))
      → R s (◌>>=◌ (λ (_ : S). p) f s).1
  unfolding ◌>>=◌
  after f s (ok a, s') h k = o.rel_trans s s' (f a s').1 h ((k a).run s')
  after f s (err e, s') h k = h
  after f s (panic, s') h k = h

  pub Keeps->>= :
      {E A B : Type 0} {m : Action S E A} {f : A → Action S E B}
      → Keeps R m
      → ((a : A) → Keeps R (f a))
      → Keeps R (m >>= f)
  unfolding ◌>>=◌
  Keeps->>= {m = m} {f = f} h k = record { run = λ s. after f s (m s) (h.run s) k }

  pub Keeps->> :
      {E A B : Type 0} {m : Action S E A} {k : Action S E B}
      → Keeps R m
      → Keeps R k
      → Keeps R (m >> k)
  unfolding ◌>>◌
  Keeps->> h k = Keeps->>= h (λ _. k)

  pub Keeps-pure : {E A : Type 0} (a : A) → Keeps R (pure {S = S} {E = E} a)
  unfolding pure
  Keeps-pure a = record { run = o.rel_refl }

  pub Keeps-lift : {E A : Type 0} (m : Go E A) → Keeps R (lift {S = S} m)
  unfolding lift
  Keeps-lift m = record { run = o.rel_refl }

  pub Keeps-gets : {E A : Type 0} (f : S → A) → Keeps R (gets {S = S} {E = E} f)
  unfolding gets
  Keeps-gets f = record { run = o.rel_refl }

  pub Keeps-modify :
      {E : Type 0} {f : S → S} → ((s : S) → R s (f s)) → Keeps R (modify {S = S} {E = E} f)
  unfolding modify
  Keeps-modify h = record { run = h }
