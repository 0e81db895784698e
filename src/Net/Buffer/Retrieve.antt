-- ===== src/Net/Buffer/Retrieve.antt =====
-- Reading from the buffers of net/src/buffer.cpp: `retrieve` and the calls that stand on it.
use qinyunserver.Base.{
  ℕ, ◌+◌, ◌≤◌, ◌<◌, ◌≡◌, refl, sym, ap, ◌∙◌, none, some, List, [], ◌++◌, append_assoc, arith,
  length, take, drop, le→leb, lt→not_leb, length-append, length-take, length-drop, take-append-drop,
  take-append_within, take-all, drop-all, ◌%◌, ◌^◌,
}
use qinyunserver.Net.Buffer.{
  Buffer, ◌>>=◌, max_size, peek, readable_bytes, retrieve, retrieve_as_string,
  retrieve_all_as_string, append,
}
use qinyunserver.Net.Buffer.Valid.{
  IsValid, HasParts, parts_of_valid, HasParts-IsValid, peek-parts, readable-parts, drop-parts,
}
use qinyunserver.Net.Buffer.Append.{append_lem}

pub readable-peek : {b : Buffer} → IsValid b → readable_bytes b ≡ length (peek b)
readable-peek v = readable-parts (parts_of_valid v)

-- Where at least `len` bytes are readable `retrieve` drops the first `len` of them, leaves the buffer
-- well-formed and does not move its end; where fewer are, its assertion fails.
pub retrieve_lem :
    (len : ℕ) (b : Buffer)
    → IsValid b
    → (len ≤ length (peek b)
        → (b' : Buffer) × (retrieve len b ≡ some b')
          × IsValid b'
          × (peek b' ≡ drop len (peek b))
          × (b'.writer_idx ≡ b.writer_idx))
      × (length (peek b) < len → retrieve len b ≡ none)
unfolding retrieve
retrieve_lem len b v = (
  λ h. (
    record b { reader_idx = b.reader_idx + len },
    rw (le→leb _ _ (readable h), index h) refl,
    HasParts-IsValid (q h),
    peek-parts (q h),
    refl,
  ),
  λ h. rw (lt→not_leb len (readable_bytes b) (omega (arith, readable-peek v))) refl,
)
  where
    mid : List ℕ
    mid = peek b

    p : HasParts b (take b.reader_idx b.bytes) mid (drop b.writer_idx b.bytes)
    p = parts_of_valid v

    readable : len ≤ length mid → len ≤ readable_bytes b
    readable h = omega (arith, readable-peek v)

    index : len ≤ length mid → (b.reader_idx + len) % 2 ^ 64 ≡ b.reader_idx + len
    index h = omega (arith, p.start, p.small)

    q :
        len ≤ length mid
        → HasParts
            (record b { reader_idx = b.reader_idx + len })
            (take b.reader_idx b.bytes ++ take len mid)
            (drop len mid)
            (drop b.writer_idx b.bytes)
    q h = record {
      split =
          p.split
          ∙ ap (λ zs. take b.reader_idx b.bytes ++ (zs ++ drop b.writer_idx b.bytes))
              (sym (take-append-drop len mid))
          ∙ simp append_assoc;
      start = omega (
        arith,
        p.start,
        length-append (take b.reader_idx b.bytes) (take len mid),
        length-take len mid,
      );
      stop = omega (
        arith,
        p.stop,
        length-append (take b.reader_idx b.bytes) (take len mid),
        length-take len mid,
        length-drop len mid,
      );
      small = omega (
        arith,
        p.small,
        length-append (take b.reader_idx b.bytes) (take len mid),
        length-take len mid,
        length-drop len mid,
      );
    }

-- `retrieveAsString` returns the first `len` readable bytes and leaves the rest, where that many are
-- readable. The end of the buffer does not move.
pub retrieve_as_string_lem :
    (len : ℕ) (b : Buffer)
    → IsValid b
    → len ≤ length (peek b)
    → (b' : Buffer) × (retrieve_as_string len b ≡ some (take len (peek b), b'))
      × IsValid b'
      × (peek b' ≡ drop len (peek b))
      × (b'.writer_idx ≡ b.writer_idx)
unfolding retrieve_as_string
retrieve_as_string_lem len b v h =
    let (b', e, v', rest, same) = (retrieve_lem len b v).0 h in
    (
      b',
      rw (le→leb len (readable_bytes b) (omega (arith, readable-peek v)), e, shown) refl,
      v',
      rest,
      same,
    )
  where
    shown : take len (drop b.reader_idx b.bytes) ≡ take len (peek b)
    shown =
        ap (take len) (drop-parts (parts_of_valid v))
        ∙ take-append_within len (peek b) (drop b.writer_idx b.bytes) h

-- What is appended to a well-formed buffer comes out of it, behind what it held and in order, and
-- the buffer is empty then.
pub retrieve_all-append :
    (src : List ℕ) (b : Buffer)
    → IsValid b
    → b.writer_idx + length src ≤ max_size
    → (b' : Buffer) × ((append src b >>= λ b₁. retrieve_all_as_string b₁)
        ≡ some (peek b ++ src, b'))
      × IsValid b'
      × (peek b' ≡ [])
unfolding retrieve_all_as_string
retrieve_all-append src b v fits =
    let (b₁, e₁, v₁, held, _) = append_lem src b v fits in
    let n = readable_bytes b₁ in
    let (b₂, e₂, v₂, rest, _) = retrieve_as_string_lem n b₁ v₁ (omega (arith, readable-peek v₁)) in
    (
      b₂,
      rw (e₁, e₂, take-all n (peek b₁) (omega (arith, readable-peek v₁)), held) refl,
      v₂,
      rest ∙ drop-all n (peek b₁) (omega (arith, readable-peek v₁)),
    )
