-- ===== src/Devenv/Contracts/Encoded.antt =====
-- The call data of a contract's method.
use substreams_data_service.Common.{
  ◌≡◌, refl, sym, ◌∙◌, List, some, none, Bytes, String, Option-cases, inl, inr,
}
use substreams_data_service.Common.Go.{Go, ok, err}
use substreams_data_service.Horizon.EthGo.{EthGo}
use substreams_data_service.Devenv.Chain.{Chain, Arg}
use substreams_data_service.Devenv.Transactions.{Failure, or_fail, during, method_missing}
use substreams_data_service.Devenv.Transactions.Sent.{or_fail_inv}
use substreams_data_service.Devenv.Contracts.{Contract, call_data}

module _ {eth : EthGo} (chain : Chain eth) where
  -- The ABI has the method, and `input` is its encoding with the arguments.
  pub record IsEncoded (abi : chain.Abi) (method : String) (args : List Arg) (input : Bytes)
      : Type 0 where
    pub fn : chain.Method
    pub found : chain.find_function abi method ≡ some fn
    pub encoded : chain.encode fn args ≡ ok input

  missing :
      (c : Contract chain) (method : String) (args : List Arg)
      → chain.find_function c.abi method ≡ none
      → call_data chain c method args ≡ err (method_missing method)
  unfolding call_data
  missing c method args e = rw (call_data, e) refl

  known :
      (c : Contract chain) (method : String) (args : List Arg) {fn : chain.Method}
      → chain.find_function c.abi method ≡ some fn
      → call_data chain c method args ≡ or_fail (during "encoding call") (chain.encode fn args)
  unfolding call_data
  known c method args e = rw (call_data, e) refl

  pub call_data-IsEncoded :
      (c : Contract chain) (method : String) (args : List Arg) {input : Bytes}
      → call_data chain c method args ≡ ok input
      → IsEncoded c.abi method args input
  call_data-IsEncoded c method args {input} h =
      elim (Option-cases (chain.find_function c.abi method)) [
        | inl e ↦
            let bad : ◌≡◌ {A = Go Failure Bytes} (err (method_missing method)) (ok input) =
              sym (missing c method args e) ∙ h in
            cc
        | inr (fn, e) ↦ record {
          fn = fn;
          found = e;
          encoded =
              or_fail_inv (during "encoding call") (chain.encode fn args)
                (sym (known c method args e) ∙ h);
        }
      ]
