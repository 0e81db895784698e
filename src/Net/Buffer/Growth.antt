-- ===== src/Net/Buffer/Growth.antt =====
-- `ensureWritableBytes` of net/src/buffer.cpp, on each of its branches.
use qinyunserver.Base.{
  ℕ, ◌+◌, ◌-◌, ◌≤◌, ◌≡◌, refl, sym, ap, ◌∙◌, some, List, ◌++◌, append_assoc, arith, length, take,
  drop, replicate, Bool-cases, min, ◌<◌, not_ltb→le, ltb→lt, lt→ltb, inl, inr, ltb, le→not_ltb,
  length-append, length-take, length-drop, length-replicate, take-append-drop, take-all,
}
use qinyunserver.Net.Buffer.{
  Buffer, ◌>>=◌, cheap_prepend, max_size, peek, readable_bytes, writable_bytes, resize, copy_to,
  make_space, ensure_writable_bytes, add_size,
}
use qinyunserver.Net.Buffer.Valid.{
  IsValid, HasParts, parts_of_valid, readable-parts, writable-parts,
}
use qinyunserver.Net.Buffer.Written.{copy_to-parts}

-- The three ends of `ensureWritableBytes`: room enough, a longer storage, the bytes moved down.
pub record Room (b : Buffer) (len : ℕ) (b' : Buffer) : Type 0 where
  pub pre : List ℕ
  pub post : List ℕ
  pub parts : HasParts b' pre (peek b) post
  pub enough : len ≤ length post
  pub lower : b'.writer_idx ≤ b.writer_idx

grow :
    (b : Buffer) (len : ℕ)
    → IsValid b
    → b.writer_idx + len ≤ max_size
    → length b.bytes < b.writer_idx + len
    → (b' : Buffer) × ((resize (add_size b.writer_idx len) b.bytes >>= λ xs.
          some (record b { bytes = xs }))
        ≡ some b')
      × Room b len b'
unfolding resize
grow b len v fits short = (
  record b { bytes = b.bytes ++ zeros },
  rw (size, le→not_ltb _ _ fits, take-all total b.bytes (omega arith)) refl,
  record {
    pre = take b.reader_idx b.bytes;
    post = drop b.writer_idx b.bytes ++ zeros;
    parts = record {
      split = ap (λ xs. xs ++ zeros) p.split ∙ simp append_assoc;
      start = p.start;
      stop = p.stop;
      small = omega (arith, p.small, added, free, p.stop);
    };
    enough = omega (arith, added, free);
    lower = omega arith;
  },
)
  where
    total : ℕ
    total = b.writer_idx + len

    zeros : List ℕ
    zeros = replicate (total - length b.bytes) 0

    p : HasParts b (take b.reader_idx b.bytes) (peek b) (drop b.writer_idx b.bytes)
    p = parts_of_valid v

    size : add_size b.writer_idx len ≡ b.writer_idx + len
    size = omega arith

    added :
        length (drop b.writer_idx b.bytes ++ zeros)
        ≡ length (drop b.writer_idx b.bytes) + (total - length b.bytes)
    added =
        length-append (drop b.writer_idx b.bytes) zeros
        ∙ ap (λ k. length (drop b.writer_idx b.bytes) + k) (length-replicate _ 0)

    free : length (drop b.writer_idx b.bytes) ≡ length b.bytes - b.writer_idx
    free = length-drop b.writer_idx b.bytes

move_down :
    (b : Buffer) (len : ℕ)
    → IsValid b
    → len + cheap_prepend ≤ b.reader_idx + writable_bytes b
    → cheap_prepend < b.reader_idx
    → (b' : Buffer) × ((copy_to (peek b) cheap_prepend b.bytes >>= λ xs. some (record {
      bytes = xs;
      reader_idx = cheap_prepend;
      writer_idx = add_size cheap_prepend (readable_bytes b);
    }))
        ≡ some b')
      × Room b len b'
move_down b len v room gap = (
  record {
    bytes = ys;
    reader_idx = cheap_prepend;
    writer_idx = add_size cheap_prepend (readable_bytes b);
  },
  rw copied refl,
  record {
    pre = take cheap_prepend b.bytes;
    post = drop m (drop cheap_prepend b.bytes);
    parts = record {
      split = refl;
      start = omega (arith, front);
      stop = omega (arith, front, readable-parts p);
      small = omega (arith, front, free, readable-parts p);
    };
    enough = omega (arith, free, readable-parts p);
    lower = omega (arith, readable-parts p);
  },
)
  where
    p : HasParts b (take b.reader_idx b.bytes) (peek b) (drop b.writer_idx b.bytes)
    p = parts_of_valid v

    m : ℕ
    m = length (peek b)

    ys : List ℕ
    ys = take cheap_prepend b.bytes ++ (peek b ++ drop m (drop cheap_prepend b.bytes))

    front : length (take cheap_prepend b.bytes) ≡ min cheap_prepend (length b.bytes)
    front = length-take cheap_prepend b.bytes

    free : length (drop m (drop cheap_prepend b.bytes)) ≡ length b.bytes - cheap_prepend - m
    free =
        length-drop m (drop cheap_prepend b.bytes)
        ∙ ap (λ k. k - m) (length-drop cheap_prepend b.bytes)

    old :
        b.bytes
        ≡ take cheap_prepend b.bytes
          ++ (take m (drop cheap_prepend b.bytes) ++ drop m (drop cheap_prepend b.bytes))
    old = sym (
        ap (λ zs. take cheap_prepend b.bytes ++ zs)
          (take-append-drop m (drop cheap_prepend b.bytes))
        ∙ take-append-drop cheap_prepend b.bytes)

    copied : copy_to (peek b) cheap_prepend b.bytes ≡ some ys
    copied =
        ap (copy_to (peek b) cheap_prepend) old
        ∙ copy_to-parts (peek b) (take cheap_prepend b.bytes) (take m (drop cheap_prepend b.bytes))
            _ cheap_prepend (omega (arith, front))
            (omega (
              arith,
              length-take m (drop cheap_prepend b.bytes),
              length-drop cheap_prepend b.bytes,
              readable-parts p,
            ))

pub ensure-Room :
    (b : Buffer) (len : ℕ)
    → IsValid b
    → b.writer_idx + len ≤ max_size
    → (b' : Buffer) × (ensure_writable_bytes len b ≡ some b') × Room b len b'
unfolding ensure_writable_bytes make_space
ensure-Room b len v fits = elim (Bool-cases (ltb (writable_bytes b) len)) [
  | inr enough ↦ (
    b,
    rw enough,
    record {
      pre = _;
      post = _;
      parts = parts_of_valid v;
      enough = omega (arith, not_ltb→le _ _ enough, writable-parts (parts_of_valid v));
      lower = omega arith;
    },
  )
  | inl short ↦
      elim (Bool-cases
        (ltb (add_size b.reader_idx (writable_bytes b)) (add_size len cheap_prepend))) [
          | inl tight ↦
              let (b', e, room) = grow b len v fits (omega (arith, ltb→lt _ _ short)) in
              (b', rw (short, tight) e, room)
          | inr loose ↦
              let gap : cheap_prepend < b.reader_idx =
                omega (arith, ltb→lt _ _ short, not_ltb→le _ _ loose) in
              let (b', e, room) = move_down b len v (omega (arith, not_ltb→le _ _ loose)) gap in
              (b', rw (short, loose, lt→ltb _ _ gap) e, room)
        ]
]
