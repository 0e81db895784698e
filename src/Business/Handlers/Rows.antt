-- ===== src/Business/Handlers/Rows.antt =====
-- How the handlers of server/business/BusinessServer.cpp turn the rows of a result into objects.
use Prim.Native.String.{String}
use qinyunserver.Base.{ℕ, Option, none, some, List, [], ◌∷◌, if◌then◌else◌}
use qinyunserver.Base.Int.{ℤ, pos}
use qinyunserver.Business.Text.{stoi, stoul}
use qinyunserver.Business.Interface.{JsonLib, Row}
use qinyunserver.Business.Server.{Datum, title, figure, decimal}
use qinyunserver.Business.Handlers.Activity.{column}

-- `while (result && (row = mysql_fetch_row(result)))` has no round where there is no result.
abbrev pub rows_of : Option (List Row) → List Row
rows_of none = []
rows_of (some rs) = rs

-- What a function that may throw gives for each of a sequence.
unfoldable pub each {ℓ κ} : {A : Type ℓ} {B : Type κ} → (A → Option B) → List A → Option (List B)
each f [] = some []
each f (a ∷ as') = elim (f a) [
  | none ↦ none
  | some b ↦ elim (each f as') [ none ↦ none | some bs ↦ some (b ∷ bs) ]
]

abbrev pub Reader : Type 0
Reader = Row → Option Datum

abbrev pub as_figure : Option ℤ → Option Datum
as_figure none = none
as_figure (some z) = some (figure z)

-- `std::stoi(row[i])`
abbrev pub int_at : ℕ → Reader
int_at i row = elim (column i row) [ none ↦ none | some t ↦ as_figure (stoi t) ]

-- `row[i] ? std::stoi(row[i]) : z`
abbrev pub int_or : ℕ → ℤ → Reader
int_or i z row = elim (column i row) [ none ↦ some (figure z) | some t ↦ as_figure (stoi t) ]

-- `std::stoul(row[i])`
abbrev pub unsigned_at : ℕ → Reader
unsigned_at i row = elim (column i row) [
  | none ↦ none
  | some t ↦ elim (stoul t) [ none ↦ none | some n ↦ some (figure (pos n)) ]
]

-- `row[i] ? row[i] : t`
abbrev pub text_or : ℕ → String → Reader
text_or i t row = elim (column i row) [ none ↦ some (title t) | some u ↦ some (title u) ]

module _ (J : JsonLib) where
  -- `std::stod(row[i])`
  abbrev pub decimal_at : ℕ → Reader
  decimal_at i row = elim (column i row) [
    | none ↦ none
    | some t ↦ if J.reads_double t then some (decimal t) else none
  ]

  -- `row[i] ? std::stod(row[i]) : 0.0`
  abbrev pub decimal_or_zero : ℕ → Reader
  decimal_or_zero i row = elim (column i row) [
    | none ↦ some (decimal "0.0")
    | some t ↦ if J.reads_double t then some (decimal t) else none
  ]

  -- `row[i] ? std::stof(row[i]) : 0.0f`
  abbrev pub float_or_zero : ℕ → Reader
  float_or_zero i row = elim (column i row) [
    | none ↦ some (decimal "0.0")
    | some t ↦ if J.reads_float t then some (decimal t) else none
  ]

-- An object, a field for each of the readers.
abbrev pub read_object : List (String × Reader) → Row → Option (List (String × Datum))
read_object readers row =
    each (λ r. elim (r.1 row) [ none ↦ none | some d ↦ some (r.0, d) ]) readers
