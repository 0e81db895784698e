-- ===== src/Net/Buffer/Append.antt =====
-- `append` and `prepend` of net/src/buffer.cpp.
use qinyunserver.Base.{
  ℕ, ◌+◌, ◌-◌, ◌≤◌, ◌≡◌, refl, sym, ap, ◌∙◌, none, some, List, ◌++◌, append_assoc, arith, length,
  take, drop, ◌<◌, lt→not_leb, le→leb, length-append, length-take, length-drop, take-append-drop,
}
use qinyunserver.Net.Buffer.{Buffer, max_size, peek, copy_to, append, prepend, sub_size}
use qinyunserver.Net.Buffer.Valid.{IsValid, HasParts, parts_of_valid, HasParts-IsValid, peek-parts}
use qinyunserver.Net.Buffer.Written.{copy_to-parts, write_has_written}
use qinyunserver.Net.Buffer.Growth.{ensure-Room}

-- On a well-formed buffer with room below the limit of a vector, `append` meets no failed assertion
-- and writes inside the storage: the readable bytes are the old ones and then the new ones, and the
-- buffer stays well-formed and its end moves up by no more than the new bytes.
pub append_lem :
    (src : List ℕ) (b : Buffer)
    → IsValid b
    → b.writer_idx + length src ≤ max_size
    → (b' : Buffer) × (append src b ≡ some b')
      × IsValid b'
      × (peek b' ≡ peek b ++ src)
      × (b'.writer_idx ≤ b.writer_idx + length src)
unfolding append
append_lem src b v fits =
    let (b₁, e₁, room) = ensure-Room b (length src) v fits in
    let (b₂, e₂, p) = write_has_written src room.parts room.enough in
    (
      b₂,
      rw e₁ e₂,
      HasParts-IsValid p,
      peek-parts p,
      omega (arith, p.stop, length-append (peek b) src, room.parts.stop, room.lower),
    )

-- A well-formed buffer takes bytes in front of its readable ones where the room before them
-- suffices, and `prepend` fails its assertion where it does not.
pub prepend_lem :
    (src : List ℕ) (b : Buffer)
    → IsValid b
    → (length src ≤ b.reader_idx
        → (b' : Buffer) × (prepend src b ≡ some b') × IsValid b' × (peek b' ≡ src ++ peek b))
      × (b.reader_idx < length src → prepend src b ≡ none)
unfolding prepend
prepend_lem src b v = (fits, λ h. rw (lt→not_leb _ _ h) refl)
  where
    p : HasParts b (take b.reader_idx b.bytes) (peek b) (drop b.writer_idx b.bytes)
    p = parts_of_valid v

    fits :
        length src ≤ b.reader_idx
        → (b' : Buffer) × (prepend src b ≡ some b') × IsValid b' × (peek b' ≡ src ++ peek b)
    fits h = (
      record b { bytes = ys; reader_idx = start },
      rw (le→leb _ _ h, at_start, copied) refl,
      HasParts-IsValid q,
      peek-parts q,
    )
      where
        start : ℕ
        start = b.reader_idx - length src

        at_start : sub_size b.reader_idx (length src) ≡ start
        at_start = omega (arith, p.start, p.stop, p.small)

        pre : List ℕ
        pre = take b.reader_idx b.bytes

        free : List ℕ
        free = drop b.writer_idx b.bytes

        ys : List ℕ
        ys = take start pre ++ (src ++ (peek b ++ free))

        front : length (take start pre) ≡ start
        front = omega (arith, length-take start pre, p.start)

        old : b.bytes ≡ take start pre ++ (drop start pre ++ (peek b ++ free))
        old =
            p.split
            ∙ ap (λ zs. zs ++ (peek b ++ free)) (sym (take-append-drop start pre))
            ∙ simp append_assoc

        copied : copy_to src start b.bytes ≡ some ys
        copied =
            ap (copy_to src start) old
            ∙ copy_to-parts src (take start pre) (drop start pre) (peek b ++ free) start (sym front)
                (omega (arith, length-drop start pre, p.start))

        q :
            HasParts
              (record b { bytes = ys; reader_idx = start })
              (take start pre)
              (src ++ peek b)
              free
        q = record {
          split = simp append_assoc;
          start = sym front;
          stop = omega (arith, front, length-append src (peek b), p.start, p.stop);
          small = omega (arith, front, length-append src (peek b), p.start, p.small);
        }
