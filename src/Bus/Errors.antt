-- ===== src/Bus/Errors.antt =====
-- crates/mamba-bus/src/dispatch.rs: which dispatch failures are worth a retry.
pub mod Signals
use open_mamba.Base.{String, Bool, List, [], ◌∷◌, any, contains, not, ◌&&◌}
use open_mamba.Platform.{Platform}

abbrev pub transient_signals : List String
transient_signals =
    "timeout" ∷ "timed out" ∷ "error sending request" ∷ "connection refused" ∷ "connection reset"
    ∷ "broken pipe" ∷ "502 bad gateway" ∷ "503 service unavailable" ∷ "504 gateway timeout"
    ∷ "tcp connect error" ∷ "deadline has elapsed" ∷ []

abbrev pub permanent_signals : List String
permanent_signals =
    "agent " ∷ "missing field" ∷ "unauthorized" ∷ "401 " ∷ "403 " ∷ "invalid api key"
    ∷ "license rejected" ∷ []

unfoldable pub is_transient_error : Platform → String → Bool
unfolding contains
is_transient_error p msg =
    let m = p.to_lowercase msg in
    not (any (contains m) permanent_signals) && any (contains m) transient_signals
