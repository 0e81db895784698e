-- ===== src/Tests/Packets.antt =====
-- The theorems on the packet protocol of server/business/BusinessServer.cpp at a short stream.
use qinyunserver.Base.{ℕ, ◌≡◌, refl, inl, none, some, Option, List, [], ◌∷◌, arith}
use qinyunserver.Net.Buffer.{Buffer, ◌>>=◌, peek, retrieve_all}
use qinyunserver.Net.Buffer.Valid.{IsValid}
use qinyunserver.Business.Packet.{try_extract_packet, packet_loop, ntohl}
use qinyunserver.Business.Packet.Frames.{
  try_extract_packet_partial, try_extract_packet_oversize, try_extract_packet-frame,
}
use qinyunserver.Business.Packet.Frames.{IsPartial}
use qinyunserver.Business.Packet.Ends.{packet_loop-ends}
use qinyunserver.Business.Packet.Stream.{serve_all, deliver_all, deliver_all-frames}

-- A packet of two bytes, an empty packet, and a part of a header.
abbrev stream : Buffer
stream = record {
  bytes = 0 ∷ 0 ∷ 0 ∷ 0 ∷ 0 ∷ 0 ∷ 0 ∷ 0 ∷ 0 ∷ 0 ∷ 0 ∷ 2 ∷ 65 ∷ 66 ∷ 0 ∷ 0 ∷ 0 ∷ 0 ∷ 9 ∷ [];
  reader_idx = 8;
  writer_idx = 19;
}

stream-IsValid : IsValid stream
stream-IsValid = omega arith

-- The handling of a body that records it.
abbrev note : List ℕ → List (List ℕ) → Option (List (List ℕ))
note body seen = some (body ∷ seen)

try_extract_packet-frame_example :
    (b' : Buffer) × (try_extract_packet stream ≡ some (some (65 ∷ 66 ∷ []), b'))
    × IsValid b'
    × (peek b' ≡ 0 ∷ 0 ∷ 0 ∷ 0 ∷ 9 ∷ [])
    × (b'.writer_idx ≡ 19)
try_extract_packet-frame_example =
    try_extract_packet-frame stream stream-IsValid (65 ∷ 66 ∷ []) (0 ∷ 0 ∷ 0 ∷ 0 ∷ 9 ∷ [])
      (omega arith) refl

abbrev part : Buffer
part = record stream { reader_idx = 14; writer_idx = 17 }

try_extract_packet_partial_example : try_extract_packet part ≡ some (none, part)
try_extract_packet_partial_example =
    try_extract_packet_partial part (omega arith) (inl (omega arith))

-- A header of 2 ^ 24.
abbrev large : Buffer
large = record stream { bytes = 1 ∷ 0 ∷ 0 ∷ 0 ∷ []; reader_idx = 0; writer_idx = 4 }

try_extract_packet_oversize_example : try_extract_packet large ≡ some (none, retrieve_all large)
unfolding ntohl
try_extract_packet_oversize_example =
    try_extract_packet_oversize large (omega arith) (omega arith) (omega arith)

-- A body of two bytes, an empty one, and one byte of the next header.
packet_loop-ends_example :
    (b' : Buffer) × (s' : List (List ℕ)) × (packet_loop
        (λ body seen. some (body ∷ seen))
        12
        stream
        []
      ≡ some (b', s'))
    × IsPartial (peek b')
packet_loop-ends_example =
    packet_loop-ends (λ body seen. body ∷ seen) 12 stream [] stream-IsValid (omega arith)

abbrev fresh : Buffer
fresh = record { bytes = 0 ∷ 0 ∷ 0 ∷ 0 ∷ 0 ∷ 0 ∷ 0 ∷ 0 ∷ []; reader_idx = 8; writer_idx = 8 }

-- The same stream, cut inside the first header and inside the first body.
deliver_all-frames_example :
    (b' : Buffer) × ((s : List (List ℕ))
      → deliver_all note
          ((0 ∷ 0 ∷ []) ∷ (0 ∷ 2 ∷ 65 ∷ []) ∷ (66 ∷ 0 ∷ 0 ∷ 0 ∷ 0 ∷ 9 ∷ []) ∷ [])
          fresh
          s
        ≡ (serve_all note ((65 ∷ 66 ∷ []) ∷ [] ∷ []) s >>= λ s'. some (b', s')))
    × IsValid b'
    × (peek b' ≡ 9 ∷ [])
deliver_all-frames_example =
    deliver_all-frames note ((0 ∷ 0 ∷ []) ∷ (0 ∷ 2 ∷ 65 ∷ []) ∷ (66 ∷ 0 ∷ 0 ∷ 0 ∷ 0 ∷ 9 ∷ []) ∷ [])
      ((65 ∷ 66 ∷ []) ∷ [] ∷ []) (9 ∷ []) fresh (omega arith) (omega arith) (omega arith)
      (inl (omega arith)) (inl (omega arith)) refl
