-- ===== src/Payments/Chains/Rpc.antt =====
-- crates/x402-payments/src/chains: the JSON-RPC reply that each facilitator reads, and the tests of a
-- verified transfer against what the payload expects.
use signal_bot_tee.Common.{ℕ, ◌==◌, Bool, true, Option, none, some, Result, ok, err, if◌then◌else◌}
use signal_bot_tee.Credits.Types.{PaymentError, rpc_error, amount_mismatch}

-- `JsonRpcResponse<R>`; the message of an error is not kept.
pub record JsonRpcResponse (R : Type 0) : Type 0 where
  pub result : Option R
  pub has_error : Bool

-- What `rpc_call` makes of a reply: a request that cannot be sent, and a reply that cannot be parsed,
-- are an error too.
unfoldable pub rpc_result :
    {R : Type 0} → Result PaymentError (JsonRpcResponse R) → Result PaymentError R
rpc_result (err e) = err e
rpc_result (ok reply) =
    if reply.has_error
    then err rpc_error
    else elim reply.result [ none ↦ err rpc_error | some r ↦ ok r ]

-- `if let Some(expected) = expected_amount { ... }`
abbrev pub is_amount : Option ℕ → ℕ → Bool
is_amount none amount = true
is_amount (some expected) amount = amount == expected

abbrev pub mismatch : Option ℕ → ℕ → PaymentError
mismatch none amount = amount_mismatch 0 amount
mismatch (some expected) amount = amount_mismatch expected amount
