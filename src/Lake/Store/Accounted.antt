-- ===== src/Lake/Store/Accounted.antt =====
-- The rows that the sums of crates/mamba-lake/src/analytics.rs can rely on: none is done without its tokens.
use open_mamba.Base.{Bool, ◌&&◌, ◌||◌, not, is_some, ◌==◌}
use open_mamba.Lake.Tables.{TaskRecord}

abbrev pub is_accounted : TaskRecord → Bool
is_accounted r = not (r.status == "done") || (is_some r.tokens_in && is_some r.tokens_out)
