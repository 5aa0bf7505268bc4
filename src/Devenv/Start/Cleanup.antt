-- ===== src/Devenv/Start/Cleanup.antt =====
-- What a failed start leaves behind.
use mathlib.Core.Path.{subst}
use substreams_data_service.Common.{◌≡◌, ◌⊎◌, inl, inr, refl, List, [], ◌∷◌, none, some, String}
use substreams_data_service.Common.Int.{ℤ}
use substreams_data_service.Common.Go.{Ptr, Go, ok, err, panic}
use substreams_data_service.Common.Action.{Action, ◌>>=◌, ◌>>◌, pure, lift}
use substreams_data_service.Horizon.Types.{Address}
use substreams_data_service.Horizon.EthGo.{EthGo}
use substreams_data_service.Devenv.Chain.{Chain}
use substreams_data_service.Devenv.Transactions.{Failure, or_fail, ask}
use substreams_data_service.Devenv.Operations.{Env}
use substreams_data_service.Devenv.Deploy.{Abis}
use substreams_data_service.Devenv.Start.{
  Host, Config, must, must_address, must_account, must_account_from_hex, or_cleanup, or_cancel,
  fund_all, mint_all, create_accounts, set_up, load_abis, start, configure, default_config,
}

-- The result, if it is an error, comes in a world of which `P` holds.
abbrev pub Leaves : {S A : Type 0} → (S → Type 0) → Go Failure A × S → Type 0
Leaves P (ok a, s) = Unit
Leaves P (err e, s) = P s
Leaves P (panic, s) = Unit

-- An action leaves such a world whenever it ends with an error.
abbrev pub Fails : {S A : Type 0} → (S → Type 0) → Action S Failure A → Type 0
Fails {S} P m = (s : S) → Leaves P (m s)

module _ {S A B : Type 0} (P : S → Type 0) where
  after_step :
      (f : A → Action S Failure B) (s : S) (p : Go Failure A × S)
      → Leaves P p
      → ((a : A) → Fails P (f a))
      → Leaves P (◌>>=◌ (λ (_ : S). p) f s)
  unfolding ◌>>=◌
  after_step f s (ok a, s') h k = k a s'
  after_step f s (err e, s') h k = h
  after_step f s (panic, s') h k = tt

  >>=-Fails :
      (m : Action S Failure A) (f : A → Action S Failure B)
      → Fails P m
      → ((a : A) → Fails P (f a))
      → Fails P (m >>= f)
  unfolding ◌>>=◌
  >>=-Fails m f h k s = after_step f s (m s) (h s) k

  >>-Fails :
      (m : Action S Failure A) (f : Action S Failure B) → Fails P m → Fails P f → Fails P (m >> f)
  unfolding ◌>>◌
  >>-Fails m f h k = >>=-Fails m (λ _. f) h (λ _. k)

must-Fails :
    {S A : Type 0} (P : S → Type 0) (m : Go String A) → Fails P (lift {E = Failure} (must m))
unfolding lift must
must-Fails P (ok a) s = tt
must-Fails P (err e) s = tt
must-Fails P panic s = tt

must_address-Fails :
    {S : Type 0} (P : S → Type 0) (a : Ptr Address) → Fails P (lift {S = S} (must_address a))
unfolding lift
must_address-Fails P none s = tt
must_address-Fails P (some a) s = tt

pure-Fails : {S A : Type 0} (P : S → Type 0) (a : A) → Fails P (pure {S = S} {E = Failure} a)
unfolding pure
pure-Fails P a s = tt

module _ {eth : EthGo} {chain : Chain eth} (host : Host chain) where
  -- The container has been terminated, and then the context cancelled.
  abbrev pub IsReleased : chain.World → Type 0
  IsReleased t = (w : chain.World) × (t ≡ host.cancel (host.terminate w))

  cleaned :
      {A : Type 0} (w : chain.World) (p : Go Failure A × chain.World)
      → Leaves IsReleased (or_cleanup host (λ _. p) w)
  unfolding or_cleanup
  cleaned w (ok a, w') = tt
  cleaned w (err e, w') = (w', refl)
  cleaned w (panic, w') = tt

  or_cleanup-Fails :
      {A : Type 0} (m : Action chain.World Failure A) → Fails IsReleased (or_cleanup host m)
  unfolding or_cleanup
  or_cleanup-Fails m w = cleaned w (m w)

  account_ends :
      (P : chain.World → Type 0) (m : Go String eth.PrivateKey) (w : chain.World)
      → Leaves P (lift {S = chain.World} (must_account eth m) w)
  unfolding lift
  account_ends P (ok key) w = tt
  account_ends P (err e) w = tt
  account_ends P panic w = tt

  must_account_from_hex-Fails :
      (P : chain.World → Type 0) (key : String) → Fails P (lift (must_account_from_hex host key))
  unfolding must_account_from_hex
  must_account_from_hex-Fails P key w = account_ends P (host.new_private_key key) w

  fund_all-Fails : (dev : Address) (to : List Address) → Fails IsReleased (fund_all host dev to)
  unfolding fund_all
  fund_all-Fails dev [] = pure-Fails IsReleased tt
  fund_all-Fails dev (a ∷ rest) =
      >>-Fails IsReleased _ _ (or_cleanup-Fails _) (fund_all-Fails dev rest)

  mint_all-Fails :
      (env : Env chain) (amount : ℤ) (to : List Address)
      → Fails IsReleased (mint_all host env amount to)
  unfolding mint_all
  mint_all-Fails env amount [] = pure-Fails IsReleased tt
  mint_all-Fails env amount (a ∷ rest) =
      >>-Fails IsReleased _ _ (or_cleanup-Fails _) (mint_all-Fails env amount rest)

  create_accounts-Fails : (P : chain.World → Type 0) → Fails P (create_accounts host)
  unfolding create_accounts
  create_accounts-Fails P = >>=-Fails P _ _ (must_account_from_hex-Fails P _) λ a.
      >>=-Fails P _ _ (must_account_from_hex-Fails P _) λ b.
        >>=-Fails P _ _ (must_account_from_hex-Fails P _) λ c.
          >>=-Fails P _ _ (must_account_from_hex-Fails P _) λ d.
            >>=-Fails P _ _ (must_account_from_hex-Fails P _)
              λ e. >>=-Fails P _ _ (must_account_from_hex-Fails P _) λ f. pure-Fails P _

  load_abis-Fails : (P : chain.World → Type 0) → Fails P (load_abis host)
  unfolding load_abis
  load_abis-Fails P = >>=-Fails P _ _ (must-Fails P _) λ a. >>=-Fails P _ _ (must-Fails P _) λ b.
      >>=-Fails P _ _ (must-Fails P _) λ c. >>=-Fails P _ _ (must-Fails P _) λ d.
        >>=-Fails P _ _ (must-Fails P _) λ e.
          >>=-Fails P _ _ (must-Fails P _) λ f. >>=-Fails P _ _ (must-Fails P _) λ g. pure-Fails P _

  set_up-Fails :
      (config : Config) (token : chain.Abi) (abis : Abis chain)
      → Fails IsReleased (set_up host config token abis)
  unfolding set_up
  set_up-Fails config token abis = >>-Fails IsReleased _ _ (or_cleanup-Fails _) (
      >>=-Fails IsReleased _ _ (or_cleanup-Fails _) λ chain_id.
        >>=-Fails IsReleased _ _ (or_cleanup-Fails _) λ names.
          >>=-Fails IsReleased _ _ (or_cleanup-Fails _) λ name.
            >>=-Fails IsReleased _ _ (must_address-Fails IsReleased _) λ dev.
              >>=-Fails IsReleased _ _ (create_accounts-Fails IsReleased) λ accounts.
                >>-Fails IsReleased _ _ (fund_all-Fails dev _) (
                  >>=-Fails IsReleased _ _ (or_cleanup-Fails _)
                    λ d. >>-Fails IsReleased _ _ (mint_all-Fails _ _ _) (pure-Fails IsReleased _)))

  -- What an error leaves: nothing but a cancelled context where the container did not run, and
  -- otherwise a terminated container and a cancelled context.
  abbrev pub IsCleaned : Config → chain.World → Type 0
  IsCleaned config t =
      ((e : String) × (w : chain.World) × (v : chain.World) × (host.run_container config.chain_id w
          ≡ (err e, v))
        × (t ≡ host.cancel v))
      ⊎ IsReleased t

  run_inv :
      (f : String → Failure) (config : Config) (w : chain.World)
      (p : Go String (Unit {0}) × chain.World)
      → host.run_container config.chain_id w ≡ p
      → Leaves (IsCleaned config) (or_cancel host (λ _. (or_fail f p.0, p.1)) w)
  unfolding or_cancel
  run_inv f config w (ok a, v) h = tt
  run_inv f config w (err e, v) h = inl (e, w, v, h, refl)
  run_inv f config w (panic, v) h = tt

  run-Fails :
      (f : String → Failure) (config : Config)
      → Fails (IsCleaned config) (or_cancel host (ask chain f (host.run_container config.chain_id)))
  unfolding or_cancel ask
  run-Fails f config w = run_inv f config w (host.run_container config.chain_id w) refl

  weaken :
      {A : Type 0} (config : Config) (p : Go Failure A × chain.World)
      → Leaves IsReleased p
      → Leaves (IsCleaned config) p
  weaken config (ok a, w) h = h
  weaken config (err e, w) h = inr h
  weaken config (panic, w) h = h

  start-Fails :
      (opts : List (Config → Config))
      → Fails (IsCleaned (configure opts default_config)) (start host opts)
  unfolding start
  start-Fails opts =
      let config = configure opts default_config in
      >>=-Fails (IsCleaned config) _ _ (load_abis-Fails (IsCleaned config)) λ abis.
        >>-Fails (IsCleaned config) _ _ (run-Fails _ config) λ w.
          weaken config (set_up host config abis.0 abis.1 w) (set_up-Fails config abis.0 abis.1 w)

  -- If the start of the environment fails with an error, then either the container did not start
  -- and the context is cancelled, or the last acts of the start were to terminate the container and
  -- then to cancel the context. A panic is not an error.
  pub start_cleans :
      (opts : List (Config → Config)) (w t : chain.World) (e : Failure)
      → start host opts w ≡ (err e, t)
      → IsCleaned (configure opts default_config) t
  start_cleans opts w t e h =
      subst (Leaves (IsCleaned (configure opts default_config))) h (start-Fails opts w)
