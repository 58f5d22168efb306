-- ===== src/Platform.antt =====
-- What the source calls and this repository does not define: the case mapping of `str`, text forms
-- of numbers and ids, serde_json, hex, the cipher and the hash, and arithmetic on `f64`. Each is a
-- field, so a definition that calls it takes a `Platform`; what a theorem relies on is a hypothesis.
use Prim.Native.String.{◌++◌ as append}
use open_mamba.Base.{
  ℕ, ◌+◌, ◌-◌, ◌<◌, ℤ, String, Bool, Option, List, ◌++◌, ◌≡◌, codes, map, All, leb, ltb, ◌&&◌,
  if◌then◌else◌,
}
use open_mamba.Types.{Uuid, F64, TaskEnvelope, DateTime}
use open_mamba.Types.Json.{Json}

-- What an HTTP call ends in: an error with its message, or a status and a body.
pub data HttpResponse : Type 0 where
  transport_error : String → HttpResponse
  response : ℕ → String → HttpResponse

-- `status.is_success()`.
abbrev pub is_success : ℕ → Bool
is_success status = leb 200 status && ltb status 300

-- A result that is a value or an error message.
pub data Reply {ℓ} (A : Type ℓ) : Type ℓ where
  reply : A → Reply A
  error : String → Reply A

pub record Platform : Type 0 where
  pub to_uppercase : String → String
  pub to_lowercase : String → String
  pub show_ℕ : ℕ → String
  pub uuid_to_string : Uuid → String
  -- "502 Bad Gateway"
  pub show_status : ℕ → String
  pub json_to_string : Json → String
  pub json_from_str : String → Option Json
  pub envelope_to_json : TaskEnvelope → String
  pub hex_encode : List ℕ → String
  pub hex_decode : String → Option (List ℕ)
  pub sha256_hex : String → String
  pub encrypt : String → Reply String
  -- tokens_in * in_rate + tokens_out * out_rate, the rates in tenths of a dollar for a million.
  pub cost_at : ℕ × ℕ → ℤ → ℤ → F64
  -- The `cron` crate: the first time after the given one at which a 7-field expression fires.
  pub cron_next : String → DateTime → Reply DateTime
  -- DuckDB's `CAST(… AS VARCHAR)` of a TIMESTAMPTZ, and chrono's `parse` of a text as a DateTime<Utc>.
  pub timestamp_to_varchar : DateTime → String
  pub parse_date_time : String → Option DateTime

infixr 65 ◌⧺◌
-- The concatenation of texts, for `format!`.
abbrev pub ◌⧺◌ : String → String → String
s ⧺ t = append s t

-- A letter in the other case, if it is one of the 26.
abbrev pub ascii_upper : ℕ → ℕ
ascii_upper c = if leb 97 c && leb c 122 then c - 32 else c

abbrev pub ascii_lower : ℕ → ℕ
ascii_lower c = if leb 65 c && leb c 90 then c + 32 else c

abbrev pub IsAscii : List ℕ → Type 0
IsAscii = All (λ c. c < 128)

-- A case mapping maps the ASCII characters of a text one by one, wherever they stand.
abbrev pub MapsAscii : (String → String) → (ℕ → ℕ) → Type 0
MapsAscii f g =
    (s : String) (before word after : List ℕ)
    → codes s ≡ before ++ (word ++ after)
    → IsAscii word
    → (before' : List ℕ) × (after' : List ℕ) × (codes (f s) ≡ before' ++ (map g word ++ after'))
