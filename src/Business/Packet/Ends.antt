-- ===== src/Business/Packet/Ends.antt =====
-- The loop of `onMessage` of server/business/BusinessServer.cpp ends on every input.
use qinyunserver.Base.{
  ℕ, zero, suc, ◌+◌, ◌≤◌, ◌<◌, ◌≡◌, refl, ap, ◌⊎◌, inl, inr, none, some, List, [], arith, length,
  length-drop, take, ltb, Bool-cases, ltb→lt, not_ltb→le,
}
use qinyunserver.Net.Buffer.{Buffer, peek, retrieve_all}
use qinyunserver.Net.Buffer.Valid.{IsValid}
use qinyunserver.Net.Buffer.Retrieve.{retrieve_lem, retrieve_as_string_lem}
use qinyunserver.Business.Packet.{header_size, max_body_len, try_extract_packet, packet_loop}
use qinyunserver.Business.Packet.Frames.{
  IsPartial, header, try_extract_packet_partial, try_extract_packet_oversize, extract_empty,
  extract_body,
}

-- What is taken from a buffer: nothing, and less than a packet is left; or a body, and the header at
-- least is gone.
Taken : Buffer → Type 0
Taken b =
    ((b' : Buffer) × (try_extract_packet b ≡ some (none, b')) × IsPartial (peek b'))
    ⊎ ((body : List ℕ) × (b' : Buffer) × (try_extract_packet b ≡ some (some body, b'))
        × IsValid b'
        × (length (peek b') + header_size ≤ length (peek b)))

module _ (b : Buffer) (v : IsValid b) where
  short_or_long : (x y : ℕ) → (x < y) ⊎ (y ≤ x)
  short_or_long x y = elim (Bool-cases (ltb x y)) [
    | inl short ↦ inl (ltb→lt x y short)
    | inr long ↦ inr (not_ltb→le x y long)
  ]

  emptied : length (peek (retrieve_all b)) < header_size
  unfolding retrieve_all
  emptied = omega arith

  takes_body :
      0 < header (peek b)
      → header (peek b) ≤ max_body_len
      → header_size + header (peek b) ≤ length (peek b)
      → Taken b
  unfolding Taken
  takes_body pos small whole =
      let n : ℕ = header (peek b) in
      let (b₁, got, v₁, left, same) = (retrieve_lem header_size b v).0 (omega arith) in
      let (b₂, got₂, v₂, left₂, same₂) =
        retrieve_as_string_lem n b₁ v₁
          (omega (arith, ap length left, length-drop header_size (peek b))) in
      inr (
        take n (peek b₁),
        b₂,
        extract_body b v n _ b₁ b₂ refl pos small whole got got₂,
        v₂,
        omega (
          arith,
          ap length left,
          length-drop header_size (peek b),
          ap length left₂,
          length-drop n (peek b₁),
        ),
      )

  takes_empty : header (peek b) ≡ 0 → header_size ≤ length (peek b) → Taken b
  unfolding Taken
  takes_empty e whole =
      let (b₁, got, v₁, left, same) = (retrieve_lem header_size b v).0 whole in
      inr (
        [],
        b₁,
        extract_empty b v b₁ whole e got,
        v₁,
        omega (arith, ap length left, length-drop header_size (peek b)),
      )

  try_extract_packet-Taken : Taken b
  unfolding Taken
  try_extract_packet-Taken = elim (short_or_long (length (peek b)) header_size) [
    | inl short ↦ inl (b, try_extract_packet_partial b v (inl short), inl short)
    | inr whole ↦ elim (short_or_long 0 (header (peek b))) [
      | inr zero' ↦ takes_empty (omega arith) whole
      | inl pos ↦ elim (short_or_long max_body_len (header (peek b))) [
        | inl large ↦ inl (retrieve_all b, try_extract_packet_oversize b v whole large, inl emptied)
        | inr small ↦ elim (short_or_long (length (peek b)) (header_size + header (peek b))) [
          | inl part ↦
              inl
                (b, try_extract_packet_partial b v (inr (pos, small, part)), inr (pos, small, part))
          | inr there ↦ takes_body pos small there
        ]
      ]
    ]
  ]

-- Whatever bytes a well-formed buffer holds, packets of any length or none, the loop ends, with no
-- assertion failed, and leaves less than a packet, given more fuel than there are bytes, where no handler
-- ends the process.
pub packet_loop-ends {ℓ} :
    {S : Type ℓ} (handle : List ℕ → S → S) (fuel : ℕ) (b : Buffer) (s : S)
    → IsValid b
    → length (peek b) < fuel
    → (b' : Buffer) × (s' : S) × (packet_loop (λ body s₁. some (handle body s₁)) fuel b s
        ≡ some (b', s'))
      × IsPartial (peek b')
unfolding packet_loop Taken
packet_loop-ends handle zero b s v h = absurd (omega arith)
packet_loop-ends handle (suc fuel) b s v h = elim (try_extract_packet-Taken b v) [
  | inl (b', e, part) ↦ (b', s, rw (e, packet_loop) refl, part)
  | inr (body, b₁, e, v₁, less) ↦
      let (b', s', ran, part) = packet_loop-ends handle fuel b₁ (handle body s) v₁ (omega arith) in
      (b', s', rw (e, packet_loop) ran, part)
]
