-- ===== src/Business/Packet.antt =====
-- The packet protocol of server/business/BusinessServer.cpp: `tryExtractPacket` and the loop of
-- `onMessage` round it. A packet is a length of four bytes, the highest first, and a body.
pub mod Frames
pub mod Cuts
pub mod Ends
pub mod Stream
use qinyunserver.Base.{
  ℕ, zero, suc, ◌+◌, ◌*◌, ◌/◌, ◌%◌, ◌^◌, Option, none, some, List, [], ◌∷◌, ltb, ◌==◌,
  if◌then◌else◌,
}
use qinyunserver.Net.Buffer.{
  Buffer, ◌>>=◌, peek, readable_bytes, retrieve, retrieve_all, retrieve_as_string,
}

abbrev pub header_size : ℕ
header_size = 4

abbrev pub max_body_len : ℕ
max_body_len = 4 * 1024 * 1024

-- std::memcpy of four bytes into a uint32_t, on a little-endian host.
abbrev pub load_u32 : List ℕ → ℕ
load_u32 (a ∷ b ∷ c ∷ d ∷ _) = a + b * 2 ^ 8 + c * 2 ^ 16 + d * 2 ^ 24
load_u32 _ = 0

-- On such a host `ntohl` turns the bytes round.
unfoldable pub ntohl : ℕ → ℕ
ntohl x =
    x % 2 ^ 8 * 2 ^ 24
    + x / 2 ^ 8 % 2 ^ 8 * 2 ^ 16
    + x / 2 ^ 16 % 2 ^ 8 * 2 ^ 8
    + x / 2 ^ 24 % 2 ^ 8

-- The body of the next packet and the buffer behind it, or no body and the buffer that is left.
-- `none` is a failed assertion of the buffer.
pub try_extract_packet : Buffer → Option (Option (List ℕ) × Buffer)
try_extract_packet buffer =
    if ltb (readable_bytes buffer) header_size
    then some (none, buffer)
    else if body_len == 0
    then (retrieve header_size buffer >>= λ b. some (some [], b))
    else if ltb max_body_len body_len
    then some (none, retrieve_all buffer)
    else if ltb (readable_bytes buffer) (header_size + body_len)
    then some (none, buffer)
    else (retrieve header_size buffer >>= λ b₁.
        retrieve_as_string body_len b₁ >>= λ (body, b₂). some (some body, b₂))
  where
    body_len : ℕ
    body_len = ntohl (load_u32 (peek buffer))

-- The loop of `onMessage`: `serve` is its body, which handles the text of one packet and may end
-- the process by an exception (`none`). The fuel bounds the rounds; `none` is also its end.
pub packet_loop {ℓ} : {S : Type ℓ} → (List ℕ → S → Option S) → ℕ → Buffer → S → Option (Buffer × S)
packet_loop serve zero buffer s = none
packet_loop serve (suc fuel) buffer s = elim (try_extract_packet buffer) [
  | none ↦ none
  | some (none, b) ↦ some (b, s)
  | some (some body, b) ↦ serve body s >>= λ s'. packet_loop serve fuel b s'
]
