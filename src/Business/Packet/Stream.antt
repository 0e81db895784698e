-- ===== src/Business/Packet/Stream.antt =====
-- The loop of `onMessage` of server/business/BusinessServer.cpp over a stream that arrives in chunks.
use qinyunserver.Base.{
  ℕ, zero, suc, ◌+◌, ◌≤◌, ◌<◌, ◌≡◌, refl, sym, subst, ap, ◌∙◌, Option, none, some, List, [], ◌∷◌,
  ◌++◌, append_assoc, append-nil, arith, All, length, length-append,
}
use mathlib.Core.Path.{fun_ext}
use qinyunserver.Net.Buffer.{Buffer, ◌>>=◌, >>=_assoc, max_size, peek, readable_bytes, append}
use qinyunserver.Net.Buffer.Valid.{IsValid}
use qinyunserver.Net.Buffer.Append.{append_lem}
use qinyunserver.Net.Buffer.Retrieve.{readable-peek}
use qinyunserver.Business.Packet.{packet_loop, try_extract_packet}
use qinyunserver.Business.Packet.Frames.{
  Fits, IsPartial, frame, try_extract_packet_partial, try_extract_packet-frame,
}
use qinyunserver.Business.Packet.Cuts.{frames, length-frames, frame-not-IsPartial, Cut, frames-Cut}

module _ {ℓ} {S : Type ℓ} (serve : List ℕ → S → Option S) where
  -- Each body is handled in turn, until one ends the process.
  abbrev pub serve_all : List (List ℕ) → S → Option S
  serve_all [] s = some s
  serve_all (body ∷ bodies) s = serve body s >>= λ s'. serve_all bodies s'

  loop_step :
      (fuel : ℕ) (b b₁ b' : Buffer) (body : List ℕ) (bodies : List (List ℕ))
      → try_extract_packet b ≡ some (some body, b₁)
      → ((s : S) → packet_loop serve fuel b₁ s ≡ (serve_all bodies s >>= λ s'. some (b', s')))
      → (s : S)
      → packet_loop serve (suc fuel) b s ≡ (serve_all (body ∷ bodies) s >>= λ s'. some (b', s'))
  unfolding packet_loop
  loop_step fuel b b₁ b' body bodies got rest s =
      rw (got, packet_loop)
        (ap (λ k. serve body s >>= k) (fun_ext rest)
          ∙ >>=_assoc (serve body s) (λ s'. serve_all bodies s') (λ s'. some (b', s')))

  -- Of a buffer that holds whole packets and then less than one, the loop handles each body, once
  -- and in order, ends, and leaves what is no packet yet, given more fuel than there are packets.
  pub packet_loop-frames :
      (bodies : List (List ℕ)) (rest : List ℕ) (fuel : ℕ) (b : Buffer)
      → length bodies < fuel
      → IsValid b
      → All Fits bodies
      → IsPartial rest
      → peek b ≡ frames bodies ++ rest
      → (b' : Buffer) × ((s : S)
          → packet_loop serve fuel b s ≡ (serve_all bodies s >>= λ s'. some (b', s')))
        × IsValid b'
        × (peek b' ≡ rest)
        × (b'.writer_idx ≡ b.writer_idx)
  unfolding packet_loop
  packet_loop-frames bodies rest zero b h v fits part e = absurd (omega arith)
  packet_loop-frames [] rest (suc fuel) b h v fits part e = (
    b,
    (λ s. rw (try_extract_packet_partial b v (subst IsPartial (sym e) part), packet_loop) refl),
    v,
    e,
    refl,
  )
  packet_loop-frames (body ∷ bodies) rest (suc fuel) b h v fits part e =
      let (b₁, got, v₁, left, same) =
        try_extract_packet-frame b v body (frames bodies ++ rest) fits.0
          (e ∙ append_assoc (frame body) (frames bodies) rest) in
      let (b', ran, v', left', same') =
        packet_loop-frames bodies rest fuel b₁ (omega arith) v₁ fits.1 part left in
      (b', loop_step fuel b b₁ b' body bodies got ran, v', left', same' ∙ same)

  -- One call of `onMessage` behind a read: the new bytes, and the loop with one round for each
  -- byte and one more.
  abbrev pub deliver : List ℕ → Buffer → S → Option (Buffer × S)
  deliver chunk b s = append chunk b >>= λ b'. packet_loop serve (suc (readable_bytes b')) b' s

  abbrev pub deliver_all : List (List ℕ) → Buffer → S → Option (Buffer × S)
  deliver_all [] b s = some (b, s)
  deliver_all (chunk ∷ chunks) b s = deliver chunk b s >>= λ (b', s'). deliver_all chunks b' s'

-- Chunks, joined.
abbrev pub join : List (List ℕ) → List ℕ
join [] = []
join (xs ∷ xss) = xs ++ join xss

module _ {ℓ} {S : Type ℓ} (serve : List ℕ → S → Option S) where
  serve_all-append :
      (xs ys : List (List ℕ)) (s : S)
      → serve_all serve (xs ++ ys) s ≡ (serve_all serve xs s >>= λ s'. serve_all serve ys s')
  serve_all-append [] ys s = refl
  serve_all-append (x ∷ xs) ys s =
      ap (λ k. serve x s >>= k) (fun_ext (serve_all-append xs ys))
      ∙ >>=_assoc (serve x s) (λ s'. serve_all serve xs s') (λ s'. serve_all serve ys s')

  module _ (chunk : List ℕ) (chunks : List (List ℕ)) (b b₁ b₂ b₃ : Buffer)
      (done todo : List (List ℕ)) (got : append chunk b ≡ some b₁)
      (ran : (s : S)
        → packet_loop serve (suc (readable_bytes b₁)) b₁ s
          ≡ (serve_all serve done s >>= λ s'. some (b₂, s')))
      (ran₂ : (s : S)
        → deliver_all serve chunks b₂ s ≡ (serve_all serve todo s >>= λ s'. some (b₃, s'))) where
    after_done :
        (m : Option S)
        → ((m >>= λ s'. some (b₂, s')) >>= λ (b', s'). deliver_all serve chunks b' s')
          ≡ ((m >>= λ s'. serve_all serve todo s') >>= λ s'. some (b₃, s'))
    after_done none = refl
    after_done (some s') = ran₂ s'

    chunk_step :
        (bodies : List (List ℕ))
        → bodies ≡ done ++ todo
        → (s : S)
        → deliver_all serve (chunk ∷ chunks) b s
          ≡ (serve_all serve bodies s >>= λ s'. some (b₃, s'))
    chunk_step bodies split s = rw got (
        rw (ran s) (
          after_done (serve_all serve done s)
          ∙ ap (λ m. m >>= λ s'. some (b₃, s')) (sym (serve_all-append done todo s))
          ∙ ap (λ bs. serve_all serve bs s >>= λ s'. some (b₃, s')) (sym split)))

  -- However a stream of packets is cut into chunks, the calls of `onMessage` handle the same bodies
  -- in the same order, each once, and keep what is no packet yet: the chunks may end inside a header
  -- or a body. The buffer must be well-formed, hold less than a packet at first, and stay below the
  -- limit of a vector; the bodies must be within the server's limit.
  pub deliver_all-frames :
      (chunks bodies : List (List ℕ)) (rest : List ℕ) (b : Buffer)
      → IsValid b
      → b.writer_idx + length (join chunks) ≤ max_size
      → All Fits bodies
      → IsPartial rest
      → IsPartial (peek b)
      → peek b ++ join chunks ≡ frames bodies ++ rest
      → (b' : Buffer) × ((s : S)
          → deliver_all serve chunks b s ≡ (serve_all serve bodies s >>= λ s'. some (b', s')))
        × IsValid b'
        × (peek b' ≡ rest)
  deliver_all-frames [] [] rest b v room fits part held e =
      (b, (λ s. refl), v, sym (append-nil (peek b)) ∙ e)
  deliver_all-frames [] (body ∷ bodies) rest b v room fits part held e = absurd (
      frame-not-IsPartial body (frames bodies ++ rest) fits.0 (
        subst IsPartial
          (sym (append-nil (peek b)) ∙ e ∙ append_assoc (frame body) (frames bodies) rest) held))
  deliver_all-frames (chunk ∷ chunks) bodies rest b v room fits part held e =
      let (b₁, got, v₁, text, end) =
        append_lem chunk b v (omega (arith, length-append chunk (join chunks))) in
      let c : Cut bodies rest (peek b ++ chunk) (join chunks) =
        frames-Cut bodies rest (peek b ++ chunk) (join chunks) fits part
          (append_assoc (peek b) chunk (join chunks) ∙ e) in
      let held₁ : peek b₁ ≡ frames c.done ++ c.left = text ∙ c.front in
      let (b₂, ran, v₂, left, same) =
        packet_loop-frames serve c.done c.left (suc (readable_bytes b₁)) b₁
          (omega (
            arith,
            length-frames c.done,
            readable-peek v₁,
            ap length held₁,
            length-append (frames c.done) c.left,
          ))
          v₁ c.fits_done c.part held₁ in
      let (b₃, ran₂, v₃, left₂) =
        deliver_all-frames chunks c.todo rest b₂ v₂
          (omega (arith, length-append chunk (join chunks))) c.fits_todo part
          (subst IsPartial (sym left) c.part) (ap (λ zs. zs ++ join chunks) left ∙ c.back) in
      (b₃, chunk_step chunk chunks b b₁ b₂ b₃ c.done c.todo got ran ran₂ bodies c.split, v₃, left₂)
