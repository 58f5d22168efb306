-- ===== src/Chain.antt =====
-- crates/mamba-chain: the hash and cipher round a billing event, and its anchor on a chain.
pub mod Crypto
pub mod Layout
use open_mamba.Base.{
  ℕ, zero, suc, ◌/◌, ◌%◌, ◌^◌, String, Option, none, some, List, [], ◌∷◌, ◌++◌, take, unwrap_or,
}
use open_mamba.Types.{BillingEvent}
use open_mamba.Platform.{Platform, ◌⧺◌}

-- The last `n` bytes of a number, the highest first: `Uuid::as_bytes` at 16.
unfoldable pub be_bytes : ℕ → ℕ → List ℕ
be_bytes zero x = []
be_bytes (suc n) x = (x / 256 ^ n % 256) ∷ be_bytes n x

abbrev pub selector : List ℕ
selector = 0x4d ∷ 0x61 ∷ 0x62 ∷ 0x41 ∷ []

unfoldable pub encode_calldata : Platform → BillingEvent → List ℕ
unfolding be_bytes
encode_calldata p e =
    selector ++ (be_bytes 16 e.task_id ++ unwrap_or (p.hex_decode e.payload_hash) [])

pub record ChainAnchor : Type 0 where
  pub rpc_url : String
  pub private_key : Option String

-- The values of MAMBA_CHAIN_RPC and MAMBA_CHAIN_KEY, if they are set.
unfoldable pub anchor_from_env : Option String → Option String → ChainAnchor
anchor_from_env rpc key = record { rpc_url = unwrap_or rpc ""; private_key = key }

abbrev pub anchor_with : Platform → BillingEvent → Option String → Option String
anchor_with p e none = none
anchor_with p e (some key) = some ("0x" ⧺ p.hex_encode (take 32 (encode_calldata p e)))

-- No transaction is sent: with a key, the result is a preview of the calldata.
unfoldable pub anchor : Platform → ChainAnchor → BillingEvent → Option String
unfolding encode_calldata
anchor p a e = anchor_with p e a.private_key
