-- ===== src/Net/Buffer/Valid.antt =====
-- The well-formed buffers of net/src/buffer.cpp, and the three parts of their storage.
use qinyunserver.Base.{
  ℕ, ◌+◌, ◌≤◌, ◌≡◌, refl, sym, ap, ◌∙◌, List, ◌++◌, arith, length, take, drop, length-append,
  length-take, length-drop, take-append-drop, take-append, drop-append, drop-drop,
}
use qinyunserver.Net.Buffer.{Buffer, max_size, empty, peek, readable_bytes, writable_bytes}

-- The indices are ordered and inside the storage, and the storage is no longer than a vector can be.
pub record IsValid (b : Buffer) : Type 0 where
  pub ordered : b.reader_idx ≤ b.writer_idx
  pub within : b.writer_idx ≤ length b.bytes
  pub bounded : length b.bytes ≤ max_size

-- The storage is the consumed bytes, the readable ones and the free ones.
pub record HasParts (b : Buffer) (pre mid post : List ℕ) : Type 0 where
  pub split : b.bytes ≡ pre ++ (mid ++ post)
  pub start : b.reader_idx ≡ length pre
  pub stop : b.writer_idx ≡ length pre + length mid
  pub small : length pre + length mid + length post ≤ max_size

pub parts_of_valid :
    {b : Buffer}
    → IsValid b
    → HasParts b (take b.reader_idx b.bytes) (peek b) (drop b.writer_idx b.bytes)
parts_of_valid {b} v = record {
  split = sym (ap (λ ys. take r b.bytes ++ ys) tail_eq ∙ take-append-drop r b.bytes);
  start = omega (arith, length-take r b.bytes);
  stop =
      omega (arith, length-take r b.bytes, length-take n (drop r b.bytes), length-drop r b.bytes);
  small = omega (
    arith,
    length-take r b.bytes,
    length-take n (drop r b.bytes),
    length-drop r b.bytes,
    length-drop b.writer_idx b.bytes,
  );
}
  where
    r : ℕ
    r = b.reader_idx

    n : ℕ
    n = readable_bytes b

    tail_eq : peek b ++ drop b.writer_idx b.bytes ≡ drop r b.bytes
    tail_eq =
        ap (λ ys. peek b ++ ys)
          (ap (λ k. drop k b.bytes) (omega arith) ∙ sym (drop-drop n r b.bytes))
        ∙ take-append-drop n (drop r b.bytes)

module _ {b : Buffer} {pre mid post : List ℕ} (p : HasParts b pre mid post) where
  pub length-parts : length b.bytes ≡ length pre + length mid + length post
  length-parts =
      ap length p.split ∙ omega (arith, length-append pre (mid ++ post), length-append mid post)

  pub HasParts-IsValid : IsValid b
  HasParts-IsValid = omega (arith, length-parts, p.start, p.stop, p.small)

  pub readable-parts : readable_bytes b ≡ length mid
  readable-parts = omega (arith, p.start, p.stop, p.small)

  pub writable-parts : writable_bytes b ≡ length post
  writable-parts = omega (arith, length-parts, p.stop, p.small)

  pub drop-parts : drop b.reader_idx b.bytes ≡ mid ++ post
  drop-parts = ap (λ ys. drop b.reader_idx ys) p.split ∙ drop-append _ pre (mid ++ post) p.start

  pub peek-parts : peek b ≡ mid
  peek-parts = ap (take (readable_bytes b)) drop-parts ∙ take-append _ mid post readable-parts

-- A new buffer is well-formed and has nothing to read.
pub empty-IsValid : IsValid empty × (readable_bytes empty ≡ 0)
unfolding empty
empty-IsValid =
    (record { ordered = omega arith; within = omega arith; bounded = omega arith }, refl)
