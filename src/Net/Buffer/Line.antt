-- ===== src/Net/Buffer/Line.antt =====
-- `Buffer::getline` of net/src/buffer.cpp.
use qinyunserver.Base.{
  ℕ, ◌+◌, ◌≤◌, ◌≡◌, refl, sym, ap, ◌∙◌, ◌≢◌, none, some, List, [], ◌∷◌, ◌++◌, arith, All, length,
  take, drop, ne→not_==, length-append, take-append, drop-append, append_assoc,
}
use qinyunserver.Net.Buffer.{Buffer, peek, find_newline, getline, retrieve_as_string}
use qinyunserver.Net.Buffer.Valid.{IsValid}
use qinyunserver.Net.Buffer.Retrieve.{retrieve_as_string_lem}

abbrev newline : ℕ
newline = b'\n'

-- No newline in the text.
abbrev pub IsPlain : List ℕ → Type 0
IsPlain = All (λ c. c ≢ b'\n')

find_newline-some :
    (line rest : List ℕ) → IsPlain line → find_newline (line ++ (b'\n' ∷ rest)) ≡ some (length line)
unfolding find_newline
find_newline-some [] rest h = refl
find_newline-some (c ∷ cs) rest h = rw (ne→not_== c b'\n' h.0, find_newline-some cs rest h.1) refl

find_newline-none : (xs : List ℕ) → IsPlain xs → find_newline xs ≡ none
unfolding find_newline
find_newline-none [] h = refl
find_newline-none (c ∷ cs) h = rw (ne→not_== c b'\n' h.0, find_newline-none cs h.1) refl

-- A well-formed buffer whose readable bytes are a line, its newline and a rest gives the line with
-- its newline and keeps the rest; one without a newline gives nothing and stays as it is.
pub getline_lem :
    (b : Buffer) (line rest : List ℕ)
    → IsValid b
    → IsPlain line
    → (peek b ≡ line ++ (b'\n' ∷ rest)
        → (b' : Buffer) × (getline b ≡ some (some (line ++ (b'\n' ∷ [])), b'))
          × IsValid b'
          × (peek b' ≡ rest))
      × (peek b ≡ line → getline b ≡ some (none, b))
unfolding getline
getline_lem b line rest v plain = (found, λ e. rw (e, find_newline-none line plain, getline) refl)
  where
    text : List ℕ
    text = line ++ (b'\n' ∷ [])

    n : ℕ
    n = length line + 1

    size : n ≡ length text
    size = sym (length-append line (b'\n' ∷ []))

    take_line :
        (b' : Buffer)
        → peek b ≡ text ++ rest
        → retrieve_as_string n b ≡ some (take n (peek b), b')
        → getline b ≡ some (some text, b')
    take_line b' e got =
        rw
          (
            ap find_newline (e ∙ append_assoc line (b'\n' ∷ []) rest)
                ∙ find_newline-some line rest plain,
            getline,
          )
          (rw got (rw (ap (take n) e ∙ take-append n text rest size) refl))

    found :
        peek b ≡ line ++ (b'\n' ∷ rest)
        → (b' : Buffer) × (getline b ≡ some (some text, b')) × IsValid b' × (peek b' ≡ rest)
    found e =
        let whole : peek b ≡ text ++ rest = e ∙ sym (append_assoc line (b'\n' ∷ []) rest) in
        let fits : n ≤ length (peek b) =
          omega (arith, ap length whole, length-append text rest, size) in
        let (b', got, v', left, _) = retrieve_as_string_lem n b v fits in
        (b', take_line b' whole got, v', left ∙ ap (drop n) whole ∙ drop-append n text rest size)
