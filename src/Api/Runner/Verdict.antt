-- ===== src/Api/Runner/Verdict.antt =====
-- How the reviewer's text is read.
use open_mamba.Base.{◌≡◌, refl, String, codes}
use open_mamba.Platform.{Platform, ascii_upper, MapsAscii}
use open_mamba.Bus.Errors.Signals.{StandsIn, contains-StandsIn}
use open_mamba.Api.Runner.{blocked, parse_reviewer_verdict}

-- A review that has the letters "blocked" anywhere in it, in any casing, is read as blocked, with
-- its whole text as the reason, also where it says "unblocked" or "not blocked" or approves.
pub parse_reviewer_verdict-blocked :
    (p : Platform) (response : String)
    → MapsAscii p.to_uppercase ascii_upper
    → StandsIn ascii_upper (codes "BLOCKED") response
    → parse_reviewer_verdict p response ≡ blocked response
unfolding parse_reviewer_verdict
parse_reviewer_verdict-blocked p response maps stands =
    rw (contains-StandsIn p.to_uppercase ascii_upper response "BLOCKED" maps stands) refl
