-- ===== src/Net/Buffer/Written.antt =====
-- Copying bytes into the storage of the buffers of net/src/buffer.cpp.
use qinyunserver.Base.{
  ℕ, ◌+◌, ◌≤◌, ◌≡◌, refl, sym, ap, ◌∙◌, some, List, ◌++◌, append_assoc, arith, length, take, drop,
  le→leb, ap₂, length-append, length-take, length-drop, take-append-drop, take-append, drop-append,
  drop-drop,
}
use qinyunserver.Net.Buffer.{
  Buffer, ◌>>=◌, writable_bytes, copy_to, has_written, write_at_end, add_size,
}
use qinyunserver.Net.Buffer.Valid.{HasParts}

pub copy_to-parts :
    (src pre old post : List ℕ) (pos : ℕ)
    → pos ≡ length pre
    → length src ≡ length old
    → copy_to src pos (pre ++ (old ++ post)) ≡ some (pre ++ (src ++ post))
unfolding copy_to
copy_to-parts src pre old post pos e h =
    rw (le→leb _ _ fits) (ap some (ap₂ ◌++◌ front (ap (λ ys. src ++ ys) back)))
  where
    fits : pos + length src ≤ length (pre ++ (old ++ post))
    fits = omega (arith, length-append pre (old ++ post), length-append old post)

    front : take pos (pre ++ (old ++ post)) ≡ pre
    front = take-append pos pre (old ++ post) e

    back : drop (pos + length src) (pre ++ (old ++ post)) ≡ post
    back =
        sym (drop-drop (length src) pos (pre ++ (old ++ post)))
        ∙ ap (drop (length src)) (drop-append pos pre (old ++ post) e)
        ∙ drop-append (length src) old post h

-- A write of as many bytes as are free, and the move of the index behind it.
pub write_has_written :
    {b : Buffer} {pre mid post : List ℕ} (src : List ℕ)
    → HasParts b pre mid post
    → length src ≤ length post
    → (b' : Buffer) × ((write_at_end src b >>= λ b₁. has_written (length src) b₁) ≡ some b')
      × HasParts b' pre (mid ++ src) (drop (length src) post)
unfolding write_at_end has_written
write_has_written {b} {pre} {mid} {post} src p h = (
  record b { bytes = ys; writer_idx = add_size b.writer_idx (length src) },
  rw (copied, write_at_end) (rw (le→leb _ _ fits) refl),
  record {
    split = refl;
    start = p.start;
    stop = omega (arith, length-append mid src, p.stop, p.small);
    small = omega (arith, length-append mid src, length-drop (length src) post, p.small);
  },
)
  where
    n : ℕ
    n = length src

    ys : List ℕ
    ys = pre ++ ((mid ++ src) ++ drop n post)

    regroup :
        (zs : List ℕ) → (pre ++ mid) ++ (zs ++ drop n post) ≡ pre ++ ((mid ++ zs) ++ drop n post)
    regroup zs = simp append_assoc

    old : b.bytes ≡ (pre ++ mid) ++ (take n post ++ drop n post)
    old = p.split ∙ simp (append_assoc, take-append-drop)

    copied : copy_to src b.writer_idx b.bytes ≡ some ys
    copied =
        ap (copy_to src b.writer_idx) old
        ∙ copy_to-parts src (pre ++ mid) (take n post) (drop n post) b.writer_idx
            (omega (arith, p.stop, length-append pre mid)) (omega (arith, length-take n post))
        ∙ ap some (regroup src)

    fits : n ≤ writable_bytes (record b { bytes = ys })
    fits = omega (
      arith,
      p.stop,
      p.small,
      length-append pre ((mid ++ src) ++ drop n post),
      length-append (mid ++ src) (drop n post),
      length-append mid src,
      length-drop n post,
    )
