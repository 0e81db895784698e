-- ===== src/Business/Handlers/Template/Dedup.antt =====
-- Which courses `handleGetClassTemplate` of server/business/BusinessServer.cpp gives.
use Prim.Native.String.{String}
use text.Mathlib.Text.{◌==◌ as str_eq}
use text.Mathlib.TextEquality.{eq_iff}
use qinyunserver.Base.{
  ◌≡◌, refl, sym, ap, ◌∙◌, Bool, true, false, ◌||◌, Option, none, some, List, [], ◌∷◌,
  if◌then◌else◌, All, Bool-cases, inl, inr,
}
use qinyunserver.Business.Interface.{Row}
use qinyunserver.Business.Server.{Datum}
use qinyunserver.Business.Handlers.Rows.{each, read_object}
use qinyunserver.Business.Handlers.Template.{course_columns, slot_key, was_seen, courses_of}

abbrev pub is_key : String → Option String → Bool
is_key key none = false
is_key key (some k) = str_eq k key

-- A row of the slot is among some rows.
abbrev pub key_among : String → List Row → Bool
key_among key [] = false
key_among key (row ∷ rs) = is_key key (slot_key row) || key_among key rs

abbrev pub repeats : Option String → List Row → Bool
repeats none earlier = false
repeats (some key) earlier = key_among key earlier

-- The rows that are the first of their slot, behind some earlier ones.
abbrev pub first_rows : List Row → List Row → List Row
first_rows earlier [] = []
first_rows earlier (row ∷ rs) =
    let rest = first_rows (row ∷ earlier) rs in
    if repeats (slot_key row) earlier then rest else row ∷ rest

-- The row names a day and a period.
abbrev pub HasSlot : Row → Type 0
HasSlot row = (key : String) × (slot_key row ≡ some key)

abbrev SeesAll : List String → List Row → Type 0
SeesAll seen earlier = (k : String) → was_seen k seen ≡ key_among k earlier

SeesAll-again :
    (key : String) (row : Row) (seen : List String) (earlier : List Row)
    → slot_key row ≡ some key
    → was_seen key seen ≡ true
    → SeesAll seen earlier
    → SeesAll seen (row ∷ earlier)
SeesAll-again key row seen earlier e again h k = elim (Bool-cases (str_eq key k)) [
  | inl same ↦ rw (e, same) (ap (λ j. was_seen j seen) (sym ((eq_iff key k).0 same)) ∙ again)
  | inr other ↦ rw (e, other) (h k)
]

SeesAll-new :
    (key : String) (row : Row) (seen : List String) (earlier : List Row)
    → slot_key row ≡ some key
    → SeesAll seen earlier
    → SeesAll (key ∷ seen) (row ∷ earlier)
SeesAll-new key row seen earlier e h k = rw e (ap (λ b. str_eq key k || b) (h k))

-- A row that is read, in front of the others.
abbrev read_then :
    Row → Option (List (List (String × Datum))) → Option (List (List (String × Datum)))
read_then row rest = elim (read_object course_columns row) [
  | none ↦ none
  | some c ↦ elim rest [ none ↦ none | some cs ↦ some (c ∷ cs) ]
]

courses_of-first_rows_from :
    (rs : List Row) (seen : List String) (earlier : List Row)
    → All HasSlot rs
    → SeesAll seen earlier
    → courses_of rs seen ≡ each (read_object course_columns) (first_rows earlier rs)
unfolding courses_of each
courses_of-first_rows_from [] seen earlier slots h = refl
courses_of-first_rows_from (row ∷ rs) seen earlier ((key, e), slots) h =
    elim (Bool-cases (was_seen key seen)) [
      | inl again ↦
          rw (e, courses_of, again, sym (h key) ∙ again)
            (courses_of-first_rows_from rs seen (row ∷ earlier) slots
              (SeesAll-again key row seen earlier e again h))
      | inr new ↦
          rw (e, courses_of, new, sym (h key) ∙ new)
            (ap (read_then row) (
              courses_of-first_rows_from rs (key ∷ seen) (row ∷ earlier) slots
                (SeesAll-new key row seen earlier e h)))
    ]

-- Where each row names a day and a period, the courses of a class are read from the rows that are the first
-- of their slot, in their order, and from no others: of a user's own row and the class's for one slot the
-- one that the query gives first counts. A row that is passed over is not read, so it cannot fail.
pub courses_of-first_rows :
    (rs : List Row)
    → All HasSlot rs
    → courses_of rs [] ≡ each (read_object course_columns) (first_rows [] rs)
courses_of-first_rows rs slots = courses_of-first_rows_from rs [] [] slots (λ k. refl)
