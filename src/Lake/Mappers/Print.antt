-- ===== src/Lake/Mappers/Print.antt =====
-- Times as DuckDB prints them are read back.
use open_mamba.Base.{ℕ, ◌≡◌, refl, ap, ◌∙◌, String, Option, none, some, All, codes}
use open_mamba.Types.{DateTime}
use open_mamba.Lake.Timestamps.{Text, triggers_parse_ts}
use open_mamba.Lake.Timestamps.Zone.{
  IsPlain, IsZone, zone, printed, rfc3339, triggers_parse_ts-zone,
}
use open_mamba.Lake.Mappers.{mapped, parse_ts, parsed_time, parse_opt_ts}
use mathlib.Core.Option.{map}

-- The text is a date, a blank, a time and the hours of a zone, and is the time for the RFC 3339 parser
-- once it has a T and the minutes of the zone, not before.
pub record PrintsAs (parse_from_rfc3339 : Text → Option DateTime) (s : String) (t : DateTime)
    : Type 0 where
  pub date : Text
  pub time : Text
  pub sign : ℕ
  pub tens : ℕ
  pub ones : ℕ
  pub plain_date : All IsPlain date
  pub plain_time : All IsPlain time
  pub is_zone : IsZone sign tens ones
  pub shape : codes s ≡ printed date time (zone sign tens ones)
  pub strict : parse_from_rfc3339 (printed date time (zone sign tens ones)) ≡ none
  pub reads : parse_from_rfc3339 (rfc3339 date time (zone sign tens ones)) ≡ some t

module _ (parse_from_rfc3339 : Text → Option DateTime) (timestamp_text : DateTime → String)
    (prints : (t : DateTime) → PrintsAs parse_from_rfc3339 (timestamp_text t) t) where
  pub parse_ts-timestamp_text :
      (t : DateTime) → parse_ts parse_from_rfc3339 (timestamp_text t) ≡ mapped t
  parse_ts-timestamp_text t =
      let p = prints t in
      ap (λ s. parsed_time (triggers_parse_ts parse_from_rfc3339 s)) p.shape
      ∙ ap parsed_time (
          triggers_parse_ts-zone parse_from_rfc3339 p.date p.time p.sign p.tens p.ones p.plain_date
            p.plain_time p.is_zone t p.strict p.reads)

  pub parse_opt_ts-timestamp_text :
      (o : Option DateTime) → parse_opt_ts parse_from_rfc3339 (map timestamp_text o) ≡ mapped o
  parse_opt_ts-timestamp_text none = refl
  parse_opt_ts-timestamp_text (some t) = rw (parse_ts-timestamp_text t) refl
