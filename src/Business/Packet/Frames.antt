-- ===== src/Business/Packet/Frames.antt =====
-- What one call of `tryExtractPacket` of server/business/BusinessServer.cpp does with a packet, a
-- part of one, and a header that is too large.
use qinyunserver.Base.{
  ℕ, ◌+◌, ◌/◌, ◌%◌, ◌^◌, ◌≤◌, ◌<◌, ◌≡◌, refl, ap, ◌∙◌, ◌⊎◌, inl, inr, none, some, List, [], ◌∷◌,
  ◌++◌, arith, length, take, drop, lt→ltb, le→not_ltb, ne→not_==, length-append, take-append,
  drop-append,
}
use qinyunserver.Net.Buffer.{
  Buffer, peek, readable_bytes, retrieve, retrieve_all, retrieve_as_string,
}
use qinyunserver.Net.Buffer.Valid.{IsValid}
use qinyunserver.Net.Buffer.Retrieve.{readable-peek, retrieve_lem, retrieve_as_string_lem}
use qinyunserver.Business.Packet.{header_size, max_body_len, load_u32, ntohl, try_extract_packet}

-- A length as the sender writes it: four bytes, the highest first.
abbrev pub be_u32 : ℕ → List ℕ
be_u32 n = n / 2 ^ 24 % 2 ^ 8 ∷ n / 2 ^ 16 % 2 ^ 8 ∷ n / 2 ^ 8 % 2 ^ 8 ∷ n % 2 ^ 8 ∷ []

abbrev pub frame : List ℕ → List ℕ
frame body = be_u32 (length body) ++ body

-- A body that the server accepts.
abbrev pub Fits : List ℕ → Type 0
Fits body = length body ≤ max_body_len

-- The value of the header in front of a text.
abbrev pub header : List ℕ → ℕ
header xs = ntohl (load_u32 xs)

-- Less than a packet: the header is not whole, or the body is not.
abbrev pub IsPartial : List ℕ → Type 0
IsPartial xs =
    (length xs < header_size)
    ⊎ ((0 < header xs) × (header xs ≤ max_body_len) × (length xs < header_size + header xs))

pub header-be_u32 : (n : ℕ) (xs : List ℕ) → n < 2 ^ 32 → header (be_u32 n ++ xs) ≡ n
unfolding ntohl
header-be_u32 n xs h = omega arith

module _ (b : Buffer) (v : IsValid b) where
  -- Less than a packet stays in the buffer.
  pub try_extract_packet_partial : IsPartial (peek b) → try_extract_packet b ≡ some (none, b)
  unfolding try_extract_packet
  try_extract_packet_partial (inl short) =
      rw (lt→ltb (readable_bytes b) header_size (omega (arith, readable-peek v))) refl
  try_extract_packet_partial (inr (pos, small, short)) = ground (arith, readable-peek v)

  -- A header above the limit empties the buffer.
  pub try_extract_packet_oversize :
      header_size ≤ length (peek b)
      → max_body_len < header (peek b)
      → try_extract_packet b ≡ some (none, retrieve_all b)
  unfolding try_extract_packet
  try_extract_packet_oversize whole large = ground (arith, readable-peek v)

  pub extract_empty :
      (b' : Buffer)
      → header_size ≤ length (peek b)
      → header (peek b) ≡ 0
      → retrieve header_size b ≡ some b'
      → try_extract_packet b ≡ some (some [], b')
  unfolding try_extract_packet
  extract_empty b' whole e got = ground (arith, readable-peek v)

  pub extract_body :
      (n : ℕ) (body : List ℕ) (b₁ b₂ : Buffer)
      → header (peek b) ≡ n
      → 0 < n
      → n ≤ max_body_len
      → header_size + n ≤ length (peek b)
      → retrieve header_size b ≡ some b₁
      → retrieve_as_string n b₁ ≡ some (body, b₂)
      → try_extract_packet b ≡ some (some body, b₂)
  unfolding try_extract_packet
  extract_body n body b₁ b₂ e pos small whole got got₂ =
      rw (le→not_ltb (readable_bytes b) header_size (omega (arith, readable-peek v)), e)
        (rw
          (
            ne→not_== n 0 (omega arith),
            le→not_ltb max_body_len n small,
            le→not_ltb (readable_bytes b) (header_size + n) (omega (arith, readable-peek v)),
            got,
            got₂,
          )
          refl)

  -- A whole packet leaves the buffer, and its body is returned.
  pub try_extract_packet-frame :
      (body rest : List ℕ)
      → Fits body
      → peek b ≡ frame body ++ rest
      → (b' : Buffer) × (try_extract_packet b ≡ some (some body, b'))
        × IsValid b'
        × (peek b' ≡ rest)
        × (b'.writer_idx ≡ b.writer_idx)
  try_extract_packet-frame [] rest fits e =
      let value : header (peek b) ≡ 0 = ap header e ∙ header-be_u32 0 rest (omega arith) in
      let (b', got, v', left, same) =
        (retrieve_lem header_size b v).0 (omega (arith, ap length e)) in
      (
        b',
        extract_empty b' (omega (arith, ap length e)) value got,
        v',
        left ∙ ap (drop header_size) e,
        same,
      )
  try_extract_packet-frame (c ∷ cs) rest fits e =
      let n : ℕ = length (c ∷ cs) in
      let value : header (peek b) ≡ n =
        ap header e ∙ header-be_u32 n ((c ∷ cs) ++ rest) (omega arith) in
      let size : length (peek b) ≡ 4 + n + length rest =
        ap length e ∙ omega (arith, length-append (c ∷ cs) rest) in
      let (b₁, got, v₁, left, same) = (retrieve_lem header_size b v).0 (omega arith) in
      let left' : peek b₁ ≡ (c ∷ cs) ++ rest = left ∙ ap (drop header_size) e in
      let (b₂, got₂, v₂, left₂, same₂) =
        retrieve_as_string_lem n b₁ v₁
          (omega (arith, ap length left', length-append (c ∷ cs) rest)) in
      (
        b₂,
        extract_body n (c ∷ cs) b₁ b₂ value (omega arith) fits (omega arith) got (
            got₂ ∙ ap (λ ys. some (ys, b₂)) (ap (take n) left' ∙ take-append n (c ∷ cs) rest refl)),
        v₂,
        left₂ ∙ ap (drop n) left' ∙ drop-append n (c ∷ cs) rest refl,
        same₂ ∙ same,
      )
