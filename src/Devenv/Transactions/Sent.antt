-- ===== src/Devenv/Transactions/Sent.antt =====
-- The transaction behind a `SendTransaction` that succeeds.
use substreams_data_service.Common.{ℕ, ◌≡◌, ap, ◌∙◌, some, Bytes, String, arith}
use substreams_data_service.Common.Int.{ℤ, int64}
use substreams_data_service.Common.Go.{Ptr, Go, ok, err, panic}
use substreams_data_service.Common.Action.{Action}
use substreams_data_service.Common.Action.Runs.{>>=-inv, lift-inv}
use substreams_data_service.Horizon.Types.{Address}
use substreams_data_service.Horizon.EthGo.{EthGo}
use substreams_data_service.Devenv.Chain.{Chain}
use substreams_data_service.Devenv.Transactions.{
  Failure, or_fail, during, ask, submit, send_transaction,
}
use substreams_data_service.Devenv.Transactions.Confirmed.{IsMined, send_transaction-IsMined}

pub or_fail_inv :
    {A : Type 0} (f : String → Failure) (m : Go String A) {a : A} → or_fail f m ≡ ok a → m ≡ ok a
or_fail_inv f (ok b) h = ground arith
or_fail_inv f (err e) h = cc
or_fail_inv f panic h = cc

module _ {eth : EthGo} (chain : Chain eth) where
  pub ask_inv :
      {A : Type 0} (f : String → Failure) (m : Action chain.World String A) (w : chain.World)
      {a : A} {t : chain.World}
      → ask chain f m w ≡ (ok a, t)
      → m w ≡ (ok a, t)
  unfolding ask
  ask_inv f m w {a} h =
      ap (λ r. (r, (m w).1)) (or_fail_inv f (m w).0 (ap (λ x. x.0) h))
      ∙ ap (λ u. (ok a, u)) (ap (λ x. x.1) h)

  -- A transaction of the account of `key` has been signed, submitted and mined.
  pub record IsSent (key : eth.PrivateKey) (chain_id : ℕ) (to : Ptr Address) (value : ℤ)
      (input : Bytes) (w t : chain.World) : Type 0 where
    pub nonce : ℕ
    pub counted : chain.World
    pub numbered : chain.nonce (eth.address_of key) w ≡ (ok nonce, counted)
    pub gas_price : ℤ
    pub priced : chain.World
    pub asked : chain.gas_price counted ≡ (ok gas_price, priced)
    pub signer : chain.TxSigner
    pub made : chain.new_signer (int64 chain_id) key ≡ ok signer
    pub raw : Bytes
    pub signed : chain.sign_transaction signer nonce to value 500000 gas_price input ≡ ok raw
    pub tx_hash : String
    pub sent : chain.World
    pub submitted : chain.send_raw_transaction raw priced ≡ (ok tx_hash, sent)
    pub hash : Bytes
    pub parsed : chain.new_hash tx_hash ≡ some hash
    pub mined : IsMined chain hash t

  pub send_transaction-IsSent :
      (key : eth.PrivateKey) (chain_id : ℕ) (to : Ptr Address) (value : ℤ) (input : Bytes)
      (w t : chain.World)
      → send_transaction chain key chain_id to value input w ≡ (ok tt, t)
      → IsSent key chain_id to value input w t
  unfolding submit
  send_transaction-IsSent key chain_id to value input w t h =
      let (tx_hash, sent, hash, ran, parsed, mined) =
        send_transaction-IsMined chain key chain_id to value input w t h in
      let (nonce, counted, numbered, h₁) =
        >>=-inv (ask chain (during "getting nonce") (chain.nonce (eth.address_of key))) _ w ran in
      let (gas_price, priced, asked, h₂) =
        >>=-inv (ask chain (during "getting gas price") chain.gas_price) _ counted h₁ in
      let (signer, made, h₃) =
        lift-inv (or_fail (during "creating signer") (chain.new_signer (int64 chain_id) key)) _
          priced h₂ in
      let (raw, signed, h₄) =
        lift-inv
          (or_fail (during "signing transaction")
            (chain.sign_transaction signer nonce to value 500000 gas_price input))
          _ priced h₃ in
      record {
        nonce = nonce;
        counted = counted;
        numbered = ask_inv (during "getting nonce") (chain.nonce (eth.address_of key)) w numbered;
        gas_price = gas_price;
        priced = priced;
        asked = ask_inv (during "getting gas price") chain.gas_price counted asked;
        signer = signer;
        made = or_fail_inv (during "creating signer") _ made;
        raw = raw;
        signed = or_fail_inv (during "signing transaction") _ signed;
        tx_hash = tx_hash;
        sent = sent;
        submitted =
            ask_inv (during "sending transaction") (chain.send_raw_transaction raw) priced h₄;
        hash = hash;
        parsed = parsed;
        mined = mined;
      }
