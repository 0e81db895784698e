-- ===== src/Net/Buffer/Moves.antt =====
-- The copies and moves of net/src/buffer.cpp, all by way of its `swap`. What a function leaves in its
-- argument stands behind its result.
use qinyunserver.Base.{ℕ, ◌≡◌, refl, []}
use qinyunserver.Net.Buffer.{Buffer, empty}

swap : Buffer → Buffer → Buffer × Buffer
swap b other = (
  record { bytes = other.bytes; reader_idx = other.reader_idx; writer_idx = other.writer_idx },
  record { bytes = b.bytes; reader_idx = b.reader_idx; writer_idx = b.writer_idx },
)

-- The copy constructor.
copy : Buffer → Buffer
copy other = record {
  bytes = other.bytes;
  reader_idx = other.reader_idx;
  writer_idx = other.writer_idx;
}

-- The move constructor. The new object has indices of no known value at first.
unfoldable move : ℕ → ℕ → Buffer → Buffer × Buffer
unfolding swap
move r w other =
    let (tmp, other') = swap empty other in
    let (tmp', this) = swap tmp (record { bytes = []; reader_idx = r; writer_idx = w }) in
    (this, other')

-- The copying `operator=`.
unfoldable copy_assign : Buffer → Buffer → Buffer
unfolding swap copy
copy_assign this other = (swap (copy other) this).1

-- The moving `operator=`, of two objects and of one to itself.
unfoldable move_assign : ℕ → ℕ → Buffer → Buffer → Buffer × Buffer
unfolding swap move
move_assign r w this other = let (tmp, other') = move r w other in ((swap tmp this).1, other')

unfoldable move_to_self : ℕ → ℕ → Buffer → Buffer
unfolding swap move
move_to_self r w this = let (tmp, this') = move r w this in (swap tmp this').1

-- A moved buffer is handed over whole, whatever the new object held, and an empty one is left behind.
move_lem : (r w : ℕ) (other : Buffer) → move r w other ≡ (other, empty)
unfolding move
move_lem r w other = refl

copy_assign_lem : (this other : Buffer) → copy_assign this other ≡ other
unfolding copy_assign
copy_assign_lem this other = refl

move_assign_lem : (r w : ℕ) (this other : Buffer) → move_assign r w this other ≡ (other, empty)
unfolding move_assign
move_assign_lem r w this other = refl

-- A buffer that is moved to itself keeps what it holds.
move_to_self_lem : (r w : ℕ) (this : Buffer) → move_to_self r w this ≡ this
unfolding move_to_self
move_to_self_lem r w this = refl
