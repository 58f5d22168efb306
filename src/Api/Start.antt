-- ===== src/Api/Start.antt =====
-- crates/mamba-api/src/main.rs: the start of the server. What the host makes of each call is a parameter.
pub mod Port
pub mod Status
pub mod Loops
use open_mamba.Base.{
  ℕ, ◌-◌, ◌+◌, ◌*◌, String, Bool, true, false, ◌&&◌, Option, none, some, List, [], ◌∷◌, eqb, leb,
  ltb, codes, unwrap_or, if◌then◌else◌,
}
use open_mamba.Types.{DateTime}
use open_mamba.Platform.{Platform, Reply, reply, error}
use open_mamba.Lake.Startup.{Store, open_lake}
use open_mamba.Bus.Dispatch.{Bus}
use open_mamba.Bus.Config.{Vars, Calls, bus_new}

-- `str::parse` at u16: an optional plus, then one digit or more, and no round above 65535.
abbrev pub checked : ℕ → Option ℕ
checked n = if ltb n 65536 then some n else none

abbrev pub is_digit : ℕ → Bool
is_digit c = leb 48 c && leb c 57

unfoldable pub push : ℕ → ℕ → Option ℕ
push acc c = if is_digit c then checked (acc * 10 + (c - 48)) else none

unfoldable pub parse_digits : ℕ → List ℕ → Option ℕ
unfolding push
parse_digits acc [] = some acc
parse_digits acc (c ∷ rest) = elim (push acc c) [ none ↦ none | some next ↦ parse_digits next rest ]

abbrev pub parse_some : List ℕ → Option ℕ
parse_some [] = none
parse_some (c ∷ rest) = parse_digits 0 (c ∷ rest)

abbrev pub parse_signed : List ℕ → Option ℕ
parse_signed [] = none
parse_signed (c ∷ rest) = if eqb c 43 then parse_some rest else parse_some (c ∷ rest)

unfoldable pub parse_u16 : String → Option ℕ
unfolding parse_digits
parse_u16 s = parse_signed (codes s)

abbrev parsed_port : Option String → Option ℕ
parsed_port none = none
parsed_port (some p) = parse_u16 p

unfoldable pub port_of : Option String → ℕ
unfolding parse_u16
port_of value = unwrap_or (parsed_port value) 1337

-- The host: the file system, the database at a path, its two texts of a time, and the network.
pub record Host : Type 0 where
  pub vars : Vars
  pub calls : Calls
  pub platform : Platform
  pub create_dir_all : String → Reply (Unit {0})
  pub file : String → Store
  pub open_error : String
  pub timestamp_text : DateTime → String
  pub to_rfc3339 : DateTime → String
  pub bind : ℕ → Reply (Unit {0})

pub data Loop : Type 0 where
  worker scheduler workflow_runner : Loop

-- An error of `main`, a panic, or a server at a port.
pub data Ended : Type 0 where
  failed : String → Ended
  panicked : String → Ended
  serves : ℕ → Bus → Ended

-- How the start ends, the loops that are spawned by then, and the database.
pub record Started : Type 0 where
  pub ended : Ended
  pub loops : List Loop
  pub lake : Option Store

abbrev db_path : Host → String
db_path h = unwrap_or (h.vars "MAMBA_DB_PATH") "data/mamba.duckdb"

abbrev bound : Bus → Store → ℕ → Reply (Unit {0}) → Started
bound b s port (reply _) = record {
  ended = serves port b;
  loops = worker ∷ scheduler ∷ workflow_runner ∷ [];
  lake = some s;
}
bound b s port (error e) = record {
  ended = failed e;
  loops = worker ∷ scheduler ∷ workflow_runner ∷ [];
  lake = some s;
}

abbrev with_bus : Host → Store → Reply Bus → Started
with_bus h s (error msg) = record { ended = panicked msg; loops = []; lake = some s }
with_bus h s (reply b) = let port = port_of (h.vars "PORT") in bound b s port (h.bind port)

abbrev opened : Host → Option (Unit {0}) × Store → Started
opened h (none, s) = record { ended = failed h.open_error; loops = []; lake = some s }
opened h (some _, s) = with_bus h s (bus_new h.platform h.calls h.vars)

abbrev with_dir : Host → Reply (Unit {0}) → Started
with_dir h (error e) = record { ended = failed e; loops = []; lake = none }
with_dir h (reply _) = opened h (open_lake h.timestamp_text h.to_rfc3339 (h.file (db_path h)))

unfoldable pub main : Host → Started
unfolding port_of bus_new open_lake
main h = with_dir h (h.create_dir_all "data")
