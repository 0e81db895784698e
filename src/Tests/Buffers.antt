-- ===== src/Tests/Buffers.antt =====
-- The theorems on net/src/buffer.cpp at small buffers.
use qinyunserver.Base.{ℕ, ◌≤◌, ◌≡◌, refl, some, [], ◌∷◌, arith}
use qinyunserver.Net.Buffer.{
  Buffer, ReadResult, received, ◌>>=◌, peek, append, prepend, retrieve, retrieve_as_string,
  retrieve_all_as_string, getline, read_fd,
}
use qinyunserver.Net.Buffer.Valid.{IsValid}
use qinyunserver.Net.Buffer.Append.{append_lem, prepend_lem}
use qinyunserver.Net.Buffer.Retrieve.{retrieve_lem, retrieve_as_string_lem, retrieve_all-append}
use qinyunserver.Net.Buffer.Line.{getline_lem}
use qinyunserver.Net.Buffer.Read.{read_fd_lem}

-- Two consumed bytes past the reserve, a line of two, a rest of one, and one free byte.
abbrev held : Buffer
held = record {
  bytes = 0 ∷ 0 ∷ 0 ∷ 0 ∷ 0 ∷ 0 ∷ 0 ∷ 0 ∷ 5 ∷ 5 ∷ 1 ∷ 2 ∷ b'\n' ∷ 3 ∷ 0 ∷ [];
  reader_idx = 10;
  writer_idx = 14;
}

held-IsValid : IsValid held
held-IsValid = omega arith

append_example :
    (b' : Buffer) × (append (6 ∷ 7 ∷ []) held ≡ some b')
    × IsValid b'
    × (peek b' ≡ 1 ∷ 2 ∷ b'\n' ∷ 3 ∷ 6 ∷ 7 ∷ [])
    × (b'.writer_idx ≤ 16)
append_example = append_lem (6 ∷ 7 ∷ []) held held-IsValid (omega arith)

prepend_example :
    (b' : Buffer) × (prepend (9 ∷ []) held ≡ some b')
    × IsValid b'
    × (peek b' ≡ 9 ∷ 1 ∷ 2 ∷ b'\n' ∷ 3 ∷ [])
prepend_example = (prepend_lem (9 ∷ []) held held-IsValid).0 (omega arith)

retrieve_example :
    (b' : Buffer) × (retrieve 3 held ≡ some b')
    × IsValid b'
    × (peek b' ≡ 3 ∷ [])
    × (b'.writer_idx ≡ 14)
retrieve_example = (retrieve_lem 3 held held-IsValid).0 (omega arith)

retrieve_as_string_example :
    (b' : Buffer) × (retrieve_as_string 2 held ≡ some (1 ∷ 2 ∷ [], b'))
    × IsValid b'
    × (peek b' ≡ b'\n' ∷ 3 ∷ [])
    × (b'.writer_idx ≡ 14)
retrieve_as_string_example = retrieve_as_string_lem 2 held held-IsValid (omega arith)

retrieve_all-append_example :
    (b' : Buffer) × ((append (6 ∷ []) held >>= λ b₁. retrieve_all_as_string b₁)
      ≡ some (1 ∷ 2 ∷ b'\n' ∷ 3 ∷ 6 ∷ [], b'))
    × IsValid b'
    × (peek b' ≡ [])
retrieve_all-append_example = retrieve_all-append (6 ∷ []) held held-IsValid (omega arith)

getline_example :
    (b' : Buffer) × (getline held ≡ some (some (1 ∷ 2 ∷ b'\n' ∷ []), b'))
    × IsValid b'
    × (peek b' ≡ 3 ∷ [])
getline_example = (getline_lem held (1 ∷ 2 ∷ []) (3 ∷ []) held-IsValid (omega arith)).0 refl

-- Three bytes arrive where one is free.
abbrev three : ℕ → ReadResult
three capacity = received (6 ∷ 7 ∷ 8 ∷ [])

read_fd_example :
    (b' : Buffer) × (read_fd three held ≡ some (received (6 ∷ 7 ∷ 8 ∷ []), b'))
    × IsValid b'
    × (peek b' ≡ 1 ∷ 2 ∷ b'\n' ∷ 3 ∷ 6 ∷ 7 ∷ 8 ∷ [])
read_fd_example = (read_fd_lem three held held-IsValid).0 (6 ∷ 7 ∷ 8 ∷ []) refl (omega arith)
