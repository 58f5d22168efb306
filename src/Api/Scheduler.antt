-- ===== src/Api/Scheduler.antt =====
-- crates/mamba-api/src/scheduler.rs and cron_util.rs: the worker that fires due cron schedules.
pub mod Firing
pub mod Once
use Prim.Native.Char.{Char, code}
use open_mamba.Base.{
  ℕ, zero, suc, ◌+◌, String, Bool, true, false, ◌&&◌, ◌||◌, not, Option, none, some, List, [], ◌∷◌,
  ℤ, pos, negsuc, eqb, leb, codes, length, if◌then◌else◌,
}
use open_mamba.Types.{DateTime, TaskEnvelope, cron, new_envelope}
use open_mamba.Platform.{Platform, Reply, reply, error, ◌⧺◌}
use open_mamba.Lake.Tables.{Schedule}
use open_mamba.Lake.Exec.{Exec, pure, attempt, now, new_v4, ◌>>=◌, ◌>>◌}
use open_mamba.Lake.Triggers.{due_schedules, upsert_schedule, advance_schedule}
use open_mamba.Bus.Dispatch.{submit}

-- `char::is_whitespace`.
unfoldable pub is_blank : ℕ → Bool
is_blank c =
    (leb 9 c && leb c 13)
    || eqb c 32
    || eqb c 0x85
    || eqb c 0xa0
    || eqb c 0x1680
    || (leb 0x2000 c && leb c 0x200a)
    || eqb c 0x2028
    || eqb c 0x2029
    || eqb c 0x202f
    || eqb c 0x205f
    || eqb c 0x3000

unfoldable pub trim_start : String → String
unfolding is_blank
trim_start String.[] = String.[]
trim_start (String.◌∷◌ c s) =
    let rest = trim_start s in if is_blank (code c) then rest else String.◌∷◌ c s

abbrev pub cons_unless : Bool → Char → String → String
cons_unless blank c (String.◌∷◌ d s) = String.◌∷◌ c (String.◌∷◌ d s)
cons_unless true c String.[] = String.[]
cons_unless false c String.[] = String.◌∷◌ c String.[]

unfoldable pub trim_end : String → String
unfolding is_blank
trim_end String.[] = String.[]
trim_end (String.◌∷◌ c s) = cons_unless (is_blank (code c)) c (trim_end s)

abbrev pub starts_field : Bool → Bool → ℕ
starts_field true blank = 0
starts_field false blank = if blank then 0 else 1

-- The number of fields of `split_whitespace`; the flag says that a field is open.
unfoldable pub count_fields : Bool → List ℕ → ℕ
unfolding is_blank
count_fields open_field [] = 0
count_fields open_field (c ∷ s) =
    starts_field open_field (is_blank c) + count_fields (not (is_blank c)) s

-- `next_after`: five fields, and what the `cron` crate says of the padded expression.
unfoldable pub next_after : Platform → String → DateTime → Reply DateTime
unfolding count_fields trim_start trim_end
next_after p expr after =
    let trimmed = trim_end (trim_start expr) in
    if eqb (count_fields false (codes trimmed)) 5
    then p.cron_next ("0 " ⧺ trimmed ⧺ " *") after
    else error "expected 5 cron fields (min hour dom month dow)"

-- `priority.max(0) as u8` of an i8.
abbrev pub max_zero : ℤ → ℕ
max_zero (pos n) = n
max_zero (negsuc n) = 0

abbrev pub schedule_envelope : ℕ → DateTime → Schedule → TaskEnvelope
schedule_envelope id t s =
    new_envelope id t s.project cron s.assigned_agent s.skill s.model s.payload
      (max_zero s.priority)

abbrev pub reschedule : Schedule → Reply DateTime → Exec Unit
reschedule s (reply next) = attempt (advance_schedule s.id next) >> pure tt
reschedule s (error e) = attempt (upsert_schedule (record s { enabled = false })) >> pure tt

abbrev pub after_submit : Platform → Schedule → Option (Unit {0}) → Exec Unit
after_submit p s none = pure tt
after_submit p s (some _) = now >>= λ t. reschedule s (next_after p s.cron_expr t)

-- Submit before advancing: a submit that fails leaves the schedule due.
unfoldable pub fire : Platform → Schedule → Exec Unit
unfolding new_envelope next_after
fire p s = do
  id ← new_v4
  t ← now
  done ← attempt (submit (schedule_envelope id t s))
  after_submit p s done

unfoldable pub fire_all : Platform → List Schedule → Exec Unit
unfolding fire
fire_all p [] = pure tt
fire_all p (s ∷ rest) = fire p s >> fire_all p rest

unfoldable pub tick : Platform → Exec Unit
unfolding fire_all
tick p = due_schedules >>= fire_all p
