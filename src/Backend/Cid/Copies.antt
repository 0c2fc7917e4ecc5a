-- ===== src/Backend/Cid/Copies.antt =====
-- Connection IDs of slices and of iterators (aquic-core/src/backend/cid/mod.rs).
use mathlib.Core.List.{append_assoc}
use aquic.Base.{
  ℕ, zero, suc, ◌+◌, ◌≤◌, ◌<◌, ◌≡◌, refl, sym, ap, ◌∙◌, none, some, List, [], ◌∷◌, ◌++◌, arith,
  lt→ltb, le→ltb, length, set, replicate, length-append, length-replicate,
}
use aquic.Backend.Cid.{
  ConnectionId, max_cid_len, copy_from_slice, try_from_slice, try_from_iter_loop, try_from_iter,
  first_of, as_slice,
}

pub first_of-copy :
    (array xs : List ℕ)
    → length xs ≤ length array
    → first_of (length xs) (copy_from_slice array xs) ≡ xs
unfolding first_of copy_from_slice
first_of-copy array [] h = refl
first_of-copy [] (x ∷ xs) h = absurd (omega arith)
first_of-copy (a ∷ array) (x ∷ xs) h = ap (λ t. x ∷ t) (first_of-copy array xs (omega arith))

-- A slice of at most `MAX_CID_LEN` bytes is a connection ID that gives it back; a longer one is none.
pub slice_lem :
    (slice : List ℕ)
    → (length slice ≤ max_cid_len
        → (id : ConnectionId) × (try_from_slice slice ≡ some id)
          × (as_slice id ≡ slice)
          × (id.len ≡ length slice))
      × (max_cid_len < length slice → try_from_slice slice ≡ none)
unfolding try_from_slice as_slice
slice_lem slice = (
  λ h. (
    record { array = copy_from_slice (replicate max_cid_len 0) slice; len = length slice },
    simp (le→ltb max_cid_len (length slice) h) refl,
    first_of-copy (replicate max_cid_len 0) slice
        (omega (arith, length-replicate {A = ℕ} max_cid_len 0)),
    refl,
  ),
  λ h. simp (lt→ltb max_cid_len (length slice) h) refl,
)

set-append :
    (front : List ℕ) (a x : ℕ) (rest : List ℕ)
    → set (front ++ a ∷ rest) (length front) x ≡ (front ++ x ∷ []) ++ rest
set-append [] a x rest = refl
set-append (y ∷ front) a x rest = ap (λ t. y ∷ t) (set-append front a x rest)

loop-short :
    (front rest xs : List ℕ)
    → length xs < length rest
    → try_from_iter_loop (length rest) (front ++ rest) (length front) xs
      ≡ some (record { array = front ++ copy_from_slice rest xs; len = length front + length xs })
unfolding try_from_iter_loop copy_from_slice
loop-short front [] xs h = absurd (omega arith)
loop-short front (a ∷ rest) [] h =
    ap (λ n. some (record { array = front ++ a ∷ rest; len = n })) (omega arith)
loop-short front (a ∷ rest) (x ∷ xs) h =
    let n : length front + 1 ≡ length (front ++ x ∷ []) =
      omega (arith, length-append front (x ∷ [])) in
    ap (λ t. try_from_iter_loop (length rest) t (length front + 1) xs) (set-append front a x rest)
    ∙ ap (λ m. try_from_iter_loop (length rest) ((front ++ x ∷ []) ++ rest) m xs) n
    ∙ loop-short (front ++ x ∷ []) rest xs (omega arith)
    ∙ ap (λ t. some (record { array = t; len = length (front ++ x ∷ []) + length xs }))
        (append_assoc front (x ∷ []) (copy_from_slice rest xs))
    ∙ ap (λ m. some (record { array = front ++ x ∷ copy_from_slice rest xs; len = m }))
        (omega (arith, n))

loop-long :
    (rounds : ℕ) (array : List ℕ) (mark : ℕ) (xs : List ℕ)
    → rounds ≤ length xs
    → try_from_iter_loop rounds array mark xs ≡ none
unfolding try_from_iter_loop
loop-long zero array mark xs h = refl
loop-long (suc rounds) array mark [] h = absurd (omega arith)
loop-long (suc rounds) array mark (x ∷ xs) h =
    loop-long rounds (set array mark x) (mark + 1) xs (omega arith)

-- An iterator of fewer than `MAX_CID_LEN` bytes gives what the slice of them gives. From exactly
-- `MAX_CID_LEN` bytes on it gives none.
pub iter_lem :
    (xs : List ℕ)
    → (length xs < max_cid_len → try_from_iter xs ≡ try_from_slice xs)
      × (max_cid_len ≤ length xs → try_from_iter xs ≡ none)
unfolding try_from_iter try_from_slice
iter_lem xs = (
  λ h.
      let zero_before : length {A = ℕ} [] + length xs ≡ length xs = omega arith in
      loop-short [] (replicate max_cid_len 0) xs h
      ∙ ap (λ n. some (record { array = copy_from_slice (replicate max_cid_len 0) xs; len = n }))
          zero_before
      ∙ sym (simp (le→ltb max_cid_len (length xs) (omega arith)) refl),
  λ h. loop-long max_cid_len (replicate max_cid_len 0) 0 xs h,
)
