-- ===== src/Net/Buffer.antt =====
-- net/src/buffer.cpp and net/include/buffer.h: the byte buffer of a connection.
-- A char is a number. `size_t` arithmetic wraps at 2 ^ 64. `none` is a failed assertion, an access
-- past the storage, or the std::length_error of a resize past the limit of a vector.
pub mod Valid
pub mod Written
pub mod Growth
pub mod Append
pub mod Retrieve
pub mod Read
pub mod Line
pub mod Moves
use qinyunserver.Base.{
  ℕ, zero, suc, ◌+◌, ◌-◌, ◌%◌, ◌^◌, Bool, Option, none, some, List, [], ◌∷◌, ◌++◌, ltb, leb, ◌==◌,
  if◌then◌else◌, length, take, drop, replicate, ◌≡◌, refl,
}

pub record Buffer : Type 0 where
  pub bytes : List ℕ
  pub reader_idx : ℕ
  pub writer_idx : ℕ

abbrev pub initial_size : ℕ
initial_size = 1024

abbrev pub cheap_prepend : ℕ
cheap_prepend = 8

-- The most elements of a vector of char.
abbrev pub max_size : ℕ
max_size = 2 ^ 63 - 1

abbrev pub add_size : ℕ → ℕ → ℕ
add_size a b = (a + b) % 2 ^ 64

abbrev pub sub_size : ℕ → ℕ → ℕ
sub_size a b = (a + 2 ^ 64 - b) % 2 ^ 64

infixl 5 ◌>>=◌
abbrev pub ◌>>=◌ {ℓ κ} : {A : Type ℓ} {B : Type κ} → Option A → (A → Option B) → Option B
none >>= f = none
some a >>= f = f a

pub empty : Buffer
empty = record {
  bytes = replicate (initial_size + cheap_prepend) 0;
  reader_idx = cheap_prepend;
  writer_idx = cheap_prepend;
}

abbrev pub readable_bytes : Buffer → ℕ
readable_bytes b = sub_size b.writer_idx b.reader_idx

abbrev pub writable_bytes : Buffer → ℕ
writable_bytes b = sub_size (length b.bytes) b.writer_idx

abbrev pub prependable_bytes : Buffer → ℕ
prependable_bytes b = b.reader_idx

-- The bytes from `peek()` on, as far as they are readable.
abbrev pub peek : Buffer → List ℕ
peek b = take (readable_bytes b) (drop b.reader_idx b.bytes)

-- std::vector::resize: new elements are zero.
pub resize : ℕ → List ℕ → Option (List ℕ)
resize n xs = if ltb max_size n then none else some (take n xs ++ replicate (n - length xs) 0)

-- std::copy to the position `pos` of the storage.
pub copy_to : List ℕ → ℕ → List ℕ → Option (List ℕ)
copy_to src pos xs =
    if leb (pos + length src) (length xs)
    then some (take pos xs ++ (src ++ drop (pos + length src) xs))
    else none

pub make_space : ℕ → Buffer → Option Buffer
unfolding resize copy_to
make_space len b =
    if ltb (add_size (prependable_bytes b) (writable_bytes b)) (add_size len cheap_prepend)
    then (resize (add_size b.writer_idx len) b.bytes >>= λ xs. some (record b { bytes = xs }))
    else if ltb cheap_prepend b.reader_idx
    then (copy_to (peek b) cheap_prepend b.bytes >>= λ xs. some (record {
      bytes = xs;
      reader_idx = cheap_prepend;
      writer_idx = add_size cheap_prepend (readable_bytes b);
    }))
    else none

pub ensure_writable_bytes : ℕ → Buffer → Option Buffer
ensure_writable_bytes len b = if ltb (writable_bytes b) len then make_space len b else some b

unfoldable pub has_written : ℕ → Buffer → Option Buffer
has_written len b =
    if leb len (writable_bytes b)
    then some (record b { writer_idx = add_size b.writer_idx len })
    else none

-- The copy of `append` and of readv: to `beginWrite()`.
unfoldable pub write_at_end : List ℕ → Buffer → Option Buffer
unfolding copy_to
write_at_end src b = copy_to src b.writer_idx b.bytes >>= λ xs. some (record b { bytes = xs })

pub append : List ℕ → Buffer → Option Buffer
append src b = ensure_writable_bytes (length src) b >>= λ b₁.
    write_at_end src b₁ >>= λ b₂. has_written (length src) b₂

unfoldable pub retrieve : ℕ → Buffer → Option Buffer
retrieve len b =
    if leb len (readable_bytes b)
    then some (record b { reader_idx = add_size b.reader_idx len })
    else none

unfoldable pub retrieve_all : Buffer → Buffer
retrieve_all b = record b { reader_idx = cheap_prepend; writer_idx = cheap_prepend }

unfoldable pub retrieve_as_string : ℕ → Buffer → Option (List ℕ × Buffer)
retrieve_as_string len b =
    if leb len (readable_bytes b)
    then (retrieve len b >>= λ b'. some (take len (drop b.reader_idx b.bytes), b'))
    else none

unfoldable pub retrieve_all_as_string : Buffer → Option (List ℕ × Buffer)
retrieve_all_as_string b = retrieve_as_string (readable_bytes b) b

pub prepend : List ℕ → Buffer → Option Buffer
unfolding copy_to
prepend src b =
    if leb (length src) (prependable_bytes b)
    then (let start = sub_size b.reader_idx (length src) in
        copy_to src start b.bytes >>= λ xs. some (record b { bytes = xs; reader_idx = start }))
    else none

-- memchr: the distance to the first newline.
pub find_newline : List ℕ → Option ℕ
find_newline [] = none
find_newline (c ∷ cs) =
    let rest = find_newline cs in
    if c == b'\n' then some 0 else elim rest [ none ↦ none | some n ↦ some (suc n) ]

-- A line with its newline, or nothing and the buffer as it was.
pub getline : Buffer → Option (Option (List ℕ) × Buffer)
getline b = elim (find_newline (peek b)) [
  | none ↦ some (none, b)
  | some n ↦ retrieve_as_string (n + 1) b >>= λ (line, b'). some (some line, b')
]

-- What readv returns: an error number, or the bytes that it has stored.
pub data ReadResult : Type 0 where
  failed : ℕ → ReadResult
  received : List ℕ → ReadResult

abbrev pub extra_size : ℕ
extra_size = 65536

-- The capacity that `readFd` hands to readv: its second vector is used only where the first is short.
abbrev pub offered : Buffer → ℕ
offered b =
    if leb extra_size (writable_bytes b) then writable_bytes b else writable_bytes b + extra_size

-- `readFd`: readv stands for the system call, from the capacity that it is offered to its result.
-- It fills the storage first, and then the extra array.
unfoldable pub read_fd : (ℕ → ReadResult) → Buffer → Option (ReadResult × Buffer)
read_fd readv b = elim (readv (offered b)) [
  | failed errno ↦ some (failed errno, b)
  | received xs ↦
      if leb (length xs) (writable_bytes b)
      then (write_at_end xs b >>= λ b₁. has_written (length xs) b₁ >>= λ b₂. some (received xs, b₂))
      else (write_at_end (take (writable_bytes b) xs) b >>= λ b₁.
          has_written (writable_bytes b) b₁ >>= λ b₂.
          append (drop (writable_bytes b) xs) b₂ >>= λ b₃. some (received xs, b₃))
]

pub >>=_assoc {ℓ} :
    {A B C : Type ℓ} (m : Option A) (f : A → Option B) (g : B → Option C)
    → (m >>= λ a. (f a >>= g)) ≡ ((m >>= f) >>= g)
>>=_assoc none f g = refl
>>=_assoc (some a) f g = refl
