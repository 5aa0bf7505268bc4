-- ===== src/Devenv/Transactions/Confirmed.antt =====
-- A transaction that `SendTransaction` reports as sent has a receipt.
use substreams_data_service.Common.{
  ℕ, ◌≡◌, ◌≢◌, refl, sym, ap, ◌∙◌, List, [], ◌∷◌, Option-cases, inl, inr, none, some, Bytes, String,
}
use substreams_data_service.Common.Int.{ℤ}
use substreams_data_service.Common.Go.{Ptr, Go, ok, err, panic}
use substreams_data_service.Common.Action.{Action}
use substreams_data_service.Common.Action.Runs.{>>=-inv}
use substreams_data_service.Horizon.Types.{Address}
use substreams_data_service.Horizon.EthGo.{EthGo}
use substreams_data_service.Devenv.Chain.{Chain, Receipt, Event, tick, cancelled}
use substreams_data_service.Devenv.Transactions.{
  Failure, timed_out, transaction_failed, judge, after_query, context_done, wait_for_receipt,
  wait_mined, submit, send_transaction,
}

judge_ok :
    (tx_hash : String) (receipt : Receipt) → judge tx_hash receipt ≡ ok tt → receipt.status ≢ some 0
unfolding judge
judge_ok tx_hash receipt h zero =
    let bad : judge tx_hash receipt ≡ err (transaction_failed tx_hash) = rw (judge, zero) refl in cc

module _ {eth : EthGo} (chain : Chain eth) where
  -- The chain has answered in the world `w` with a receipt that is not that of a failure.
  pub record IsMined (hash : Bytes) (t : chain.World) : Type 0 where
    pub receipt : Receipt
    pub asked : chain.World
    pub answered : chain.transaction_receipt hash asked ≡ (ok (some receipt), t)
    pub passed : receipt.status ≢ some 0

  failed :
      (e : Failure) (w t : chain.World)
      → ¬ (◌≡◌ {A = Go Failure (Unit {0}) × chain.World} (err e, w) (ok tt, t))
  failed e w t h = let bad : ◌≡◌ {A = Go Failure (Unit {0})} (err e) (ok tt) = ap (λ x. x.0) h in cc

  panicked :
      (w t : chain.World) → ¬ (◌≡◌ {A = Go Failure (Unit {0}) × chain.World} (panic, w) (ok tt, t))
  panicked w t h = let bad : ◌≡◌ {A = Go Failure (Unit {0})} panic (ok tt) = ap (λ x. x.0) h in cc

  after_query-IsMined :
      (later : Action chain.World Failure (Unit {0})) (tx_hash : String) (hash : Bytes)
      (asked t : chain.World) (p : Go String (Ptr Receipt) × chain.World)
      → ((w : chain.World) → later w ≡ (ok tt, t) → IsMined hash t)
      → chain.transaction_receipt hash asked ≡ p
      → after_query chain later tx_hash p ≡ (ok tt, t)
      → IsMined hash t
  unfolding after_query
  after_query-IsMined later tx_hash hash asked t (ok none, w) rest e h = rest w h
  after_query-IsMined later tx_hash hash asked t (ok (some receipt), w) rest e h = record {
    receipt = receipt;
    asked = asked;
    answered = e ∙ ap (λ x. (ok (some receipt), x.1)) h;
    passed = judge_ok tx_hash receipt (ap (λ x. x.0) h);
  }
  after_query-IsMined later tx_hash hash asked t (err x, w) rest e h = rest w h
  after_query-IsMined later tx_hash hash asked t (panic, w) rest e h = absurd (panicked w t h)

  wait_for_receipt-IsMined :
      (events : List Event) (tx_hash : String) (hash : Bytes) (w t : chain.World)
      → wait_for_receipt chain events tx_hash hash w ≡ (ok tt, t)
      → IsMined hash t
  unfolding wait_for_receipt
  wait_for_receipt-IsMined [] tx_hash hash w t h = absurd (failed (timed_out tx_hash) w t h)
  wait_for_receipt-IsMined (cancelled ∷ rest) tx_hash hash w t h =
      absurd (failed context_done w t h)
  wait_for_receipt-IsMined (tick ∷ rest) tx_hash hash w t h =
      after_query-IsMined (wait_for_receipt chain rest tx_hash hash) tx_hash hash w t
        (chain.transaction_receipt hash w) (λ v. wait_for_receipt-IsMined rest tx_hash hash v t)
        refl h

  missing :
      (tx_hash : String) (w : chain.World)
      → chain.new_hash tx_hash ≡ none
      → wait_mined chain tx_hash w ≡ (panic, w)
  unfolding wait_mined
  missing tx_hash w e = rw (wait_mined, e) refl

  parsed :
      (tx_hash : String) (w : chain.World) {hash : Bytes}
      → chain.new_hash tx_hash ≡ some hash
      → wait_mined chain tx_hash w ≡ wait_for_receipt chain (chain.events w) tx_hash hash w
  unfolding wait_mined
  parsed tx_hash w e = rw (wait_mined, e) refl

  wait_mined-IsMined :
      (tx_hash : String) (w t : chain.World)
      → wait_mined chain tx_hash w ≡ (ok tt, t)
      → (hash : Bytes) × (chain.new_hash tx_hash ≡ some hash) × IsMined hash t
  wait_mined-IsMined tx_hash w t h = elim (Option-cases (chain.new_hash tx_hash)) [
    | inl e ↦ absurd (panicked w t (sym (missing tx_hash w e) ∙ h))
    | inr (hash, e) ↦ (
      hash,
      e,
      wait_for_receipt-IsMined (chain.events w) tx_hash hash w t (sym (parsed tx_hash w e) ∙ h),
    )
  ]

  -- If `SendTransaction` succeeds, the transaction was signed and submitted, the text that the
  -- client returned is a hash, and the last answer of the chain is a receipt for it that does not
  -- have the status 0.
  pub send_transaction-IsMined :
      (key : eth.PrivateKey) (chain_id : ℕ) (to : Ptr Address) (value : ℤ) (input : Bytes)
      (w t : chain.World)
      → send_transaction chain key chain_id to value input w ≡ (ok tt, t)
      → (tx_hash : String) × (sent : chain.World) × (hash : Bytes) × (submit chain key chain_id
            500000 to value input w
          ≡ (ok tx_hash, sent))
        × (chain.new_hash tx_hash ≡ some hash)
        × IsMined hash t
  unfolding send_transaction
  send_transaction-IsMined key chain_id to value input w t h =
      let (tx_hash, sent, submitted, rest) =
        >>=-inv (submit chain key chain_id 500000 to value input) _ w h in
      let (hash, known, mined) = wait_mined-IsMined tx_hash sent t rest in
      (tx_hash, sent, hash, submitted, known, mined)
