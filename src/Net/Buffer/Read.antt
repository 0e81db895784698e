-- ===== src/Net/Buffer/Read.antt =====
-- `Buffer::readFd` of net/src/buffer.cpp: what the system call stores ends up behind the readable bytes.
use qinyunserver.Base.{
  ℕ, ◌+◌, ◌≤◌, ◌≡◌, refl, subst, ap, ◌∙◌, some, true, false, List, ◌++◌, append_assoc, arith, inl,
  inr, length, take, drop, Bool-cases, leb, leb→le, not_leb→lt, length-append, length-take,
  length-drop, take-append-drop,
}
use qinyunserver.Net.Buffer.{
  Buffer, ReadResult, failed, received, max_size, offered, peek, writable_bytes, read_fd, append,
  write_at_end, has_written, ◌>>=◌, >>=_assoc,
}
use qinyunserver.Net.Buffer.Valid.{
  IsValid, HasParts, parts_of_valid, HasParts-IsValid, peek-parts, writable-parts,
}
use qinyunserver.Net.Buffer.Append.{append_lem}
use qinyunserver.Net.Buffer.Written.{write_has_written}

module _ (readv : ℕ → ReadResult) (b b₁ : Buffer) (xs : List ℕ)
    (got : readv (offered b) ≡ received xs) where
  read_fd-short :
      leb (length xs) (writable_bytes b) ≡ true
      → (write_at_end xs b >>= λ b'. has_written (length xs) b') ≡ some b₁
      → read_fd readv b ≡ some (received xs, b₁)
  unfolding read_fd
  read_fd-short short e =
      rw (got, read_fd)
        (rw short
          (>>=_assoc (write_at_end xs b) _ _ ∙ ap (λ m. m >>= λ b₂. some (received xs, b₂)) e))

  read_fd-long :
      (b₂ : Buffer)
      → leb (length xs) (writable_bytes b) ≡ false
      → length (take (writable_bytes b) xs) ≡ writable_bytes b
      → (write_at_end (take (writable_bytes b) xs) b >>= λ b'.
          has_written (length (take (writable_bytes b) xs)) b')
        ≡ some b₁
      → append (drop (writable_bytes b) xs) b₁ ≡ some b₂
      → read_fd readv b ≡ some (received xs, b₂)
  unfolding read_fd
  read_fd-long b₂ long size e e₂ =
      rw (got, read_fd)
        (rw long (
          >>=_assoc (write_at_end (take (writable_bytes b) xs) b) _ _
          ∙ ap
              (λ m.
                m >>= λ b'. append (drop (writable_bytes b) xs) b' >>= λ b₃. some (received xs, b₃))
              full
          ∙ ap (λ m. m >>= λ b₃. some (received xs, b₃)) e₂))
    where
      full :
          (write_at_end (take (writable_bytes b) xs) b >>= λ b'. has_written (writable_bytes b) b')
          ≡ some b₁
      full =
          subst
            (λ k.
              (write_at_end (take (writable_bytes b) xs) b >>= λ b'. has_written k b') ≡ some b₁)
            size e

-- `readFd` keeps every byte that readv has stored, in order and behind the readable ones, whether
-- they fit the storage or went through the extra array, and hands the result on; where readv fails
-- the buffer stays as it is.
pub read_fd_lem :
    (readv : ℕ → ReadResult) (b : Buffer)
    → IsValid b
    → ((xs : List ℕ)
        → readv (offered b) ≡ received xs
        → b.writer_idx + length xs ≤ max_size
        → (b' : Buffer) × (read_fd readv b ≡ some (received xs, b'))
          × IsValid b'
          × (peek b' ≡ peek b ++ xs))
      × ((errno : ℕ) → readv (offered b) ≡ failed errno → read_fd readv b ≡ some (failed errno, b))
unfolding read_fd
read_fd_lem readv b v = (λ xs got fits. stored xs got fits, λ errno got. rw (got, read_fd) refl)
  where
    room : ℕ
    room = writable_bytes b

    p : HasParts b (take b.reader_idx b.bytes) (peek b) (drop b.writer_idx b.bytes)
    p = parts_of_valid v

    stored :
        (xs : List ℕ)
        → readv (offered b) ≡ received xs
        → b.writer_idx + length xs ≤ max_size
        → (b' : Buffer) × (read_fd readv b ≡ some (received xs, b'))
          × IsValid b'
          × (peek b' ≡ peek b ++ xs)
    stored xs got fits = elim (Bool-cases (leb (length xs) room)) [
      | inl short ↦
          let (b₁, e, q) =
            write_has_written xs p (omega (arith, leb→le _ _ short, writable-parts p)) in
          (b₁, read_fd-short readv b b₁ xs got short e, HasParts-IsValid q, peek-parts q)
      | inr long ↦
          let near = take room xs in
          let size : length near ≡ room = omega (arith, length-take room xs, not_leb→lt _ _ long) in
          let (b₁, e, q) = write_has_written near p (omega (arith, size, writable-parts p)) in
          let (b₂, e₂, v₂, held, _) = append_lem (drop room xs) b₁ (HasParts-IsValid q) (
            omega (
              arith,
              not_leb→lt _ _ long,
              q.stop,
              p.stop,
              length-append (peek b) near,
              size,
              length-drop room xs,
            )) in
          (
            b₂,
            read_fd-long readv b b₁ xs got b₂ long size e e₂,
            v₂,
            held
                ∙ ap (λ ys. ys ++ drop room xs) (peek-parts q)
                ∙ append_assoc (peek b) near (drop room xs)
                ∙ ap (λ ys. peek b ++ ys) (take-append-drop room xs),
          )
    ]
