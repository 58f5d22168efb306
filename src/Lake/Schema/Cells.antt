-- ===== src/Lake/Schema/Cells.antt =====
-- The cells of a row that the schema admits, read one by one.
use open_mamba.Base.{
  ℕ, zero, suc, ◌≡◌, ◌⊎◌, inl, inr, refl, ap, ◌∙◌, String, Option, none, some, List, [], ◌∷◌,
  get_elem?, unwrap_or,
}
use open_mamba.Types.{DateTime}
use open_mamba.Lake.Timestamps.{Text}
use open_mamba.Lake.Mappers.{
  Cell, null_cell, text, Row, Mapped, mapped, ◌>>=◌, text_of, get_text, get_opt_text, from_json,
  parse_ts, parse_opt_ts,
}
use open_mamba.Lake.Schema.{Column}
use open_mamba.Lake.Schema.Selects.{Item, Selected, prepare, Fits, FitsColumn}

-- Neither an error nor a panic.
abbrev pub IsMapped : {A : Type 0} → Mapped A → Type 0
IsMapped {A} m = (a : A) × (m ≡ mapped a)

pub bind_mapped :
    {A B : Type 0} {m : Mapped A} {f : A → Mapped B}
    → IsMapped m
    → ((a : A) → IsMapped (f a))
    → IsMapped (m >>= f)
bind_mapped (a, e) k = rw e (k a)

abbrev pub IsText : Cell → Type 0
IsText c = (s : String) × (c ≡ text s)

-- The columns that a SELECT gives on a table.
abbrev pub result_of : List Column → List Item → List Selected
result_of table items = unwrap_or (prepare table items) []

module _ (parse_from_rfc3339 : Text → Option DateTime) where
  -- A text that `parse_ts` reads as a time.
  abbrev pub IsTime : String → Type 0
  IsTime s = IsMapped (parse_ts parse_from_rfc3339 s)

  cell_at :
      {q : Selected} {P : Cell → Type 0} (columns : List Selected) (row : Row)
      → Fits IsTime columns row
      → (i : ℕ) → get_elem? columns i ≡ some q
      → ((c : Cell) → FitsColumn IsTime q.column.not_null q c → P c)
      → (c : Cell) × (get_elem? row i ≡ some c) × P c
  cell_at [] row fits i e f = absurd cc
  cell_at (q' ∷ columns) [] fits i e f = absurd fits
  cell_at {q} (q' ∷ columns) (c ∷ row) fits zero e f =
      let same : q' ≡ q = cc in (c, refl, f c (rw⁻¹ same fits.0))
  cell_at (q' ∷ columns) (c ∷ row) fits (suc i) e f = cell_at columns row fits.1 i e f

  module _ (columns : List Selected) (row : Row) (fits : Fits IsTime columns row) where
    pub value_at :
        {A : Type 0} {q : Selected} (wrap : A → Cell) (value_of : Option Cell → Mapped A)
        → ((a : A) → value_of (some (wrap a)) ≡ mapped a)
        → (i : ℕ) → get_elem? columns i ≡ some q
        → ((c : Cell) → FitsColumn IsTime q.column.not_null q c → (a : A) × (c ≡ wrap a))
        → IsMapped (value_of (get_elem? row i))
    value_at wrap value_of reads i e f =
        let (c, at, (a, is)) = cell_at columns row fits i e f in (a, rw (at, is) (reads a))

    pub text_at :
        {q : Selected} (i : ℕ)
        → get_elem? columns i ≡ some q
        → ((c : Cell) → FitsColumn IsTime q.column.not_null q c → IsText c)
        → IsMapped (get_text row i)
    text_at = value_at text text_of (λ s. refl)

    pub opt_text_at :
        {q : Selected} (i : ℕ)
        → get_elem? columns i ≡ some q
        → ((c : Cell) → FitsColumn IsTime q.column.not_null q c → (c ≡ null_cell) ⊎ IsText c)
        → IsMapped (get_opt_text row i)
    opt_text_at i e f =
        let (c, at, either) = cell_at columns row fits i e f in
        elim either [ inl is ↦ (none, rw (at, is) refl) | inr (s, is) ↦ (some s, rw (at, is) refl) ]

    -- A time, and one that may be NULL: the text is there and `parse_ts` reads it.
    pub time_at :
        {q : Selected} {B : Type 0} {k : DateTime → Mapped B} (i : ℕ)
        → get_elem? columns i ≡ some q
        → ((c : Cell)
            → FitsColumn IsTime q.column.not_null q c
            → (s : String) × (c ≡ text s) × IsTime s)
        → ((t : DateTime) → IsMapped (k t))
        → IsMapped (get_text row i >>= λ s. parse_ts parse_from_rfc3339 s >>= k)
    time_at i e f then' =
        let (c, at, (s, is, (t, reads))) = cell_at columns row fits i e f in
        rw (at, is, reads) (then' t)

    pub opt_time_at :
        {q : Selected} {B : Type 0} {k : Option DateTime → Mapped B} (i : ℕ)
        → get_elem? columns i ≡ some q
        → ((c : Cell)
            → FitsColumn IsTime q.column.not_null q c
            → (c ≡ null_cell) ⊎ ((s : String) × (c ≡ text s) × IsTime s))
        → ((t : Option DateTime) → IsMapped (k t))
        → IsMapped (get_opt_text row i >>= λ s. parse_opt_ts parse_from_rfc3339 s >>= k)
    opt_time_at i e f then' =
        let (c, at, either) = cell_at columns row fits i e f in
        elim either [
          | inl is ↦ rw (at, is) (then' none)
          | inr (s, is, (t, reads)) ↦ rw (at, is, reads) (then' (some t))
        ]

    -- A JSON text that serde_json reads.
    pub json_at :
        {A B : Type 0} {q : Selected} {from_str : String → Option A} {k : A → Mapped B} (i : ℕ)
        → get_elem? columns i ≡ some q
        → ((c : Cell) → FitsColumn IsTime q.column.not_null q c → IsText c)
        → ((s : String) → get_elem? row i ≡ some (text s) → (a : A) × (from_str s ≡ some a))
        → ((a : A) → IsMapped (k a))
        → IsMapped (get_text row i >>= λ s. from_json (from_str s) >>= k)
    json_at i e f reads then' =
        let (c, at, (s, is)) = cell_at columns row fits i e f in
        let (a, read) = reads s (at ∙ ap some is) in rw (at, is, read) (then' a)
