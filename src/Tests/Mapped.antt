-- ===== src/Tests/Mapped.antt =====
-- A webhook, a schedule, a workflow and a run as the lake returns them. A time is a row of the letter i.
use Prim.Native.Char.{char}
use Prim.Native.Nat.{zero, suc}
use open_mamba.Base.{
  ℕ, ◌-◌, ◌≡◌, refl, ap, true, false, String, Option, some, none, [], ◌∷◌, any, select, length, eqb,
  codes, arith, All, if◌then◌else◌,
}
use open_mamba.Types.{Uuid, DateTime}
use open_mamba.Lake.Timestamps.{Text}
use open_mamba.Lake.Timestamps.Zone.{IsPlain, printed, rfc3339, zone}
use open_mamba.Lake.Mappers.{is_empty, mapped, map_webhook, map_schedule, map_workflow, map_run}
use open_mamba.Lake.Mappers.Columns.{
  webhook_columns, schedule_columns, workflow_columns, run_columns,
}
use open_mamba.Lake.Mappers.Print.{PrintsAs}
use open_mamba.Lake.Mappers.Read.{map_rows-columns}
use open_mamba.Tests.Setting.{hook, schedule, workflow, run, unary}

stamp : DateTime → String
stamp zero = " +00"
stamp (suc n) = String.◌∷◌ (char 105 tt) (stamp n)

letters : ℕ → Text
letters zero = []
letters (suc n) = 105 ∷ letters n

read : Text → Option DateTime
read l = if any (eqb 84) l then some (length (select (eqb 105) l)) else none

IsPlain-letters : (n : ℕ) → All IsPlain (letters n)
unfolding letters
IsPlain-letters zero = tt
IsPlain-letters (suc n) = ((refl, refl), IsPlain-letters n)

codes-stamp : (n : ℕ) → codes (stamp n) ≡ printed (letters n) [] (zone 43 48 48)
unfolding stamp letters
codes-stamp zero = refl
codes-stamp (suc n) = ap (λ l. 105 ∷ l) (codes-stamp n)

any-printed : (n : ℕ) → any (eqb 84) (printed (letters n) [] (zone 43 48 48)) ≡ false
unfolding letters
any-printed zero = refl
any-printed (suc n) = any-printed n

any-rfc3339 : (n : ℕ) → any (eqb 84) (rfc3339 (letters n) [] (zone 43 48 48)) ≡ true
unfolding letters
any-rfc3339 zero = refl
any-rfc3339 (suc n) = any-rfc3339 n

letters_counted : (n : ℕ) → length (select (eqb 105) (rfc3339 (letters n) [] (zone 43 48 48))) ≡ n
unfolding letters
letters_counted zero = refl
letters_counted (suc n) = ap suc (letters_counted n)

prints : (t : DateTime) → PrintsAs read (stamp t) t
unfolding read
prints t = record {
  date = letters t;
  time = [];
  sign = 43;
  tens = 48;
  ones = 48;
  plain_date = IsPlain-letters t;
  plain_time = tt;
  is_zone = (refl, ((refl, refl), ((refl, refl), ((refl, refl), tt))), refl, refl);
  shape = codes-stamp t;
  strict = rw (any-printed t) refl;
  reads = rw (any-rfc3339 t, letters_counted t) refl;
}

-- A UUID is as many letters, and one.
length-unary : (n : ℕ) → length (codes (unary n)) ≡ suc n
length-unary zero = refl
length-unary (suc n) = ap suc (length-unary n)

is_empty-unary : (n : ℕ) → is_empty (unary n) ≡ false
is_empty-unary zero = refl
is_empty-unary (suc n) = refl

counted : String → Option Uuid
counted s = some (length (codes s) - 1)

counted-unary : (n : ℕ) → counted (unary n) ≡ some n
unfolding counted
counted-unary n = rw (length-unary n) (ap some (omega arith))

map_rows-columns_example :
    (map_webhook read (webhook_columns stamp hook) ≡ mapped hook)
    × (map_schedule read (schedule_columns stamp schedule) ≡ mapped schedule)
    × (map_workflow read (λ s. some workflow.steps) (workflow_columns stamp (λ l. "[]") workflow)
        ≡ mapped workflow)
    × (map_run read (λ s. some []) counted (run_columns stamp (λ l. "[]") unary (run 1 []))
        ≡ mapped (run 1 []))
map_rows-columns_example =
    map_rows-columns read stamp (λ l. "[]") (λ s. some workflow.steps) (λ l. "[]") (λ s. some [])
      unary counted prints is_empty-unary counted-unary hook schedule workflow (run 1 []) refl refl
