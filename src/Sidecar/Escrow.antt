-- ===== src/Sidecar/Escrow.antt =====
-- sidecar/escrow_querier.go: the balance of an escrow account, asked of the PaymentsEscrow
-- contract. The call over RPC is a parameter: it returns the result as hexadecimal text, or fails.
use substreams_data_service.Common.{
  ℕ, ◌+◌, ◌-◌, ◌*◌, [], ◌∷◌, ◌++◌, Option, none, some, ◌&&◌, Bytes, String, length, take, replicate,
  leb, ◌==◌, if◌then◌else◌,
}
use substreams_data_service.Common.Int.{ℤ, pos}
use substreams_data_service.Common.Digits.{set_bytes}
use substreams_data_service.Common.Go.{Go, ok, err, ◌>>=◌}
use substreams_data_service.Horizon.Types.{Address}

pub data QueryError : Type 0 where
  calling_get_balance : String → QueryError
  decoding_result : QueryError
  unexpected_result_length : ℕ → QueryError

pub record EscrowQuerier : Type 0 where
  -- `rpcClient.Call` with a target and the call data
  pub call : Address → Bytes → Go QueryError Bytes
  pub escrow_addr : Address

abbrev pub selector : Bytes
selector = 0xd6 ∷ 0xa5 ∷ 0x8f ∷ 0xd9 ∷ []

-- `copy(data[at+12:at+32], addr)`: at most 20 bytes, left-aligned behind 12 zeros.
unfoldable pub address_word : Address → Bytes
address_word a = replicate 12 0 ++ take 20 (a ++ replicate 20 0)

unfoldable pub balance_call : Address → Address → Address → Bytes
unfolding address_word
balance_call payer collector receiver =
    selector ++ (address_word payer ++ (address_word collector ++ address_word receiver))

-- `hex.DecodeString`
unfoldable pub hex_digit : ℕ → Option ℕ
hex_digit c =
    if leb b'0' c && leb c b'9'
    then some (c - b'0')
    else if leb b'a' c && leb c b'f'
    then some (c - b'a' + 10)
    else if leb b'A' c && leb c b'F'
    then some (c - b'A' + 10)
    else none

unfoldable pub hex_byte : Option ℕ → Option ℕ → Option Bytes → Option Bytes
hex_byte (some h) (some l) (some rest) = some ((h * 16 + l) ∷ rest)
hex_byte _ _ _ = none

unfoldable pub hex_decode : Bytes → Option Bytes
unfolding hex_digit hex_byte
hex_decode [] = some []
hex_decode (c ∷ []) = none
hex_decode (c ∷ d ∷ s) = hex_byte (hex_digit c) (hex_digit d) (hex_decode s)

-- `strings.HasPrefix(s, "0x")` and the cut.
unfoldable pub strip_0x : Bytes → Bytes
strip_0x (c ∷ d ∷ s) = if c == b'0' && d == b'x' then s else c ∷ d ∷ s
strip_0x s = s

unfoldable pub balance_of_bytes : Option Bytes → Go QueryError ℤ
balance_of_bytes none = err decoding_result
balance_of_bytes (some bytes) =
    if length bytes == 32
    then ok (pos (set_bytes bytes))
    else err (unexpected_result_length (length bytes))

unfoldable pub get_balance : EscrowQuerier → Address → Address → Address → Go QueryError ℤ
unfolding balance_call hex_decode strip_0x balance_of_bytes
get_balance q payer collector receiver = do
  result_hex ← q.call q.escrow_addr (balance_call payer collector receiver)
  balance_of_bytes (hex_decode (strip_0x result_hex))
