-- ===== src/Types/Json.antt =====
-- The `serde_json::Value` that run outputs and payloads are built of. Numbers are integers or the
-- bits of an `f64`.
use open_mamba.Base.{ℕ, ℤ, pos, String, Bool, Option, none, some, ◌==◌, if◌then◌else◌}

mutual
  pub data Json : Type 0 where
    null : Json
    bool : Bool → Json
    number : ℤ → Json
    float : ℕ → Json
    str : String → Json
    arr : Items → Json
    obj : Fields → Json

  pub data Items : Type 0 where
    nil : Items
    cons : Json → Items → Items

  pub data Fields : Type 0 where
    end : Fields
    field : String → Json → Fields → Fields

abbrev pub find_field : String → Fields → Option Json
find_field k end = none
find_field k (field j v rest) = if j == k then some v else find_field k rest

-- `value.get(key)`.
abbrev pub get : Json → String → Option Json
get (obj fields) k = find_field k fields
get null k = none
get _ k = none

-- `value.as_str()`.
abbrev pub as_str : Json → Option String
as_str (str s) = some s
as_str null = none
as_str _ = none

abbrev pub of_option_ℤ : Option ℤ → Json
of_option_ℤ none = null
of_option_ℤ (some n) = number n

abbrev pub of_option_f64 : Option ℕ → Json
of_option_f64 none = null
of_option_f64 (some x) = float x

abbrev pub of_option_str : Option String → Json
of_option_str none = null
of_option_str (some s) = str s

abbrev pub of_ℕ : ℕ → Json
of_ℕ n = number (pos n)
