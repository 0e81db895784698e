-- ===== src/Business/Packet/Cuts.antt =====
-- A stream of the packets of server/business/BusinessServer.cpp, one behind the other, and the same stream
-- cut at any byte.
use qinyunserver.Base.{
  ℕ, ◌≤◌, ◌<◌, ◌≡◌, refl, sym, subst, ap, ◌∙◌, inl, inr, List, [], ◌∷◌, ◌++◌, append_assoc, arith,
  All, length, take, drop, length-append, take-append, drop-append, take-append_within,
  drop-append_within, take-append-drop, Bool-cases, leb, leb→le, not_leb→lt,
}
use qinyunserver.Business.Packet.{header_size}
use qinyunserver.Business.Packet.Frames.{Fits, IsPartial, frame, header, header-be_u32}

-- The packets of some bodies, one behind the other.
abbrev pub frames : List (List ℕ) → List ℕ
frames [] = []
frames (body ∷ bodies) = frame body ++ frames bodies

pub length-frames : (bodies : List (List ℕ)) → length bodies ≤ length (frames bodies)
length-frames [] = omega arith
length-frames (body ∷ bodies) =
    omega (arith, length-frames bodies, length-append body (frames bodies))

-- The front of less than a packet, or of a packet that is not whole, is less than a packet.
header-append : (xs ys : List ℕ) → header_size ≤ length xs → header (xs ++ ys) ≡ header xs
header-append (a ∷ b ∷ c ∷ d ∷ xs) ys h = refl
header-append [] ys h = absurd (omega arith)
header-append (a ∷ []) ys h = absurd (omega arith)
header-append (a ∷ b ∷ []) ys h = absurd (omega arith)
header-append (a ∷ b ∷ c ∷ []) ys h = absurd (omega arith)

IsPartial-front : (xs ys : List ℕ) → IsPartial (xs ++ ys) → IsPartial xs
IsPartial-front xs ys (inl short) = inl (omega (arith, length-append xs ys))
IsPartial-front xs ys (inr (pos, small, short)) = elim (Bool-cases (leb header_size (length xs))) [
  | inl long ↦
      let same = header-append xs ys (leb→le _ _ long) in
      inr (omega (arith, same), omega (arith, same), omega (arith, same, length-append xs ys))
  | inr few ↦ inl (not_leb→lt _ _ few)
]

IsPartial-frame :
    (body xs ys zs : List ℕ)
    → Fits body
    → xs ++ ys ≡ frame body ++ zs
    → length xs < length (frame body)
    → IsPartial xs
IsPartial-frame body xs ys zs fits e short = elim (Bool-cases (leb header_size (length xs))) [
  | inl long ↦
      let value : header xs ≡ length body =
        sym (header-append xs ys (leb→le _ _ long))
        ∙ ap header e
        ∙ header-be_u32 (length body) (body ++ zs) (omega arith) in
      inr (omega (arith, value, leb→le _ _ long), omega (arith, value), omega (arith, value))
  | inr few ↦ inl (not_leb→lt _ _ few)
]

pub frame-not-IsPartial : (body zs : List ℕ) → Fits body → ¬ IsPartial (frame body ++ zs)
frame-not-IsPartial body zs fits (inl short) = omega arith
frame-not-IsPartial body zs fits (inr (pos, small, short)) =
    omega (arith, header-be_u32 (length body) (body ++ zs) (omega arith), length-append body zs)

-- A stream of packets cut at any byte: the packets before it, what of a packet stands before it, and
-- the packets that end behind it.
pub record Cut (bodies : List (List ℕ)) (rest xs ys : List ℕ) : Type 0 where
  pub done : List (List ℕ)
  pub todo : List (List ℕ)
  pub left : List ℕ
  pub split : bodies ≡ done ++ todo
  pub fits_done : All Fits done
  pub fits_todo : All Fits todo
  pub front : xs ≡ frames done ++ left
  pub part : IsPartial left
  pub back : left ++ ys ≡ frames todo ++ rest

pub frames-Cut :
    (bodies : List (List ℕ)) (rest xs ys : List ℕ)
    → All Fits bodies
    → IsPartial rest
    → xs ++ ys ≡ frames bodies ++ rest
    → Cut bodies rest xs ys
frames-Cut [] rest xs ys fits part e = record {
  done = [];
  todo = [];
  left = xs;
  split = refl;
  fits_done = tt;
  fits_todo = tt;
  front = refl;
  part = IsPartial-front xs ys (subst IsPartial (sym e) part);
  back = e;
}
frames-Cut (body ∷ bodies) rest xs ys fits part e =
    elim (Bool-cases (leb (length (frame body)) (length xs))) [
      | inr short ↦ record {
        done = [];
        todo = body ∷ bodies;
        left = xs;
        split = refl;
        fits_done = tt;
        fits_todo = fits;
        front = refl;
        part =
            IsPartial-frame body xs ys (frames bodies ++ rest) fits.0 whole (not_leb→lt _ _ short);
        back = e;
      }
      | inl long ↦
          let n : ℕ = length (frame body) in
          let near : take n xs ≡ frame body =
            sym (take-append_within n xs ys (leb→le _ _ long))
            ∙ ap (take n) whole
            ∙ take-append n (frame body) (frames bodies ++ rest) refl in
          let far : drop n xs ++ ys ≡ frames bodies ++ rest =
            sym (drop-append_within n xs ys (leb→le _ _ long))
            ∙ ap (drop n) whole
            ∙ drop-append n (frame body) (frames bodies ++ rest) refl in
          let c : Cut bodies rest (drop n xs) ys =
            frames-Cut bodies rest (drop n xs) ys fits.1 part far in
          record {
            done = body ∷ c.done;
            todo = c.todo;
            left = c.left;
            split = ap (λ bs. body ∷ bs) c.split;
            fits_done = (fits.0, c.fits_done);
            fits_todo = c.fits_todo;
            front =
                sym (take-append-drop n xs)
                ∙ ap (λ zs. zs ++ drop n xs) near
                ∙ ap (λ zs. frame body ++ zs) c.front
                ∙ sym (append_assoc (frame body) (frames c.done) c.left);
            part = c.part;
            back = c.back;
          }
    ]
  where
    whole : xs ++ ys ≡ frame body ++ (frames bodies ++ rest)
    whole = e ∙ append_assoc (frame body) (frames bodies) rest
