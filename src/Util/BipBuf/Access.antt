-- ===== src/Util/BipBuf/Access.antt =====
-- The bytes behind a reservation and behind a commit: `Deref` and `DerefMut` of bipbuf.rs.
use aquic.Base.{
  ℕ, zero, suc, ◌+◌, ◌-◌, ◌≤◌, ◌<◌, ◌≡◌, refl, ap, ◌∙◌, ◌⊎◌, inl, List, [], ◌∷◌, arith, length,
  get_or, set, length-set, get_or-set_self, get_or-set_ne,
}
use aquic.Util.BipBuf.{Buffer, Reservation, Commit}
use aquic.Util.BipBuf.Layout.{Layout}

-- `slice::from_raw_parts(ptr.add(start), len)`
pub slice : List ℕ → ℕ → ℕ → List ℕ
slice bytes start zero = []
slice bytes start (suc len) = get_or bytes start 0 ∷ slice bytes (start + 1) len

-- `Deref for BipSlice` and `Deref for BipView`
unfoldable pub read : Buffer → Commit → List ℕ
unfolding slice
read s c = slice s.bytes c.start (c.end - c.start)

pub store : List ℕ → ℕ → List ℕ → List ℕ
store bytes start [] = bytes
store bytes start (x ∷ xs) = store (set bytes start x) (start + 1) xs

-- `DerefMut for BipSliceMut`: what is written through the slice, from its first byte on. The slice ends
-- with the reservation, so `xs` is at most as long.
unfoldable pub write : Buffer → Reservation → List ℕ → Buffer
unfolding store
write s r xs = record s { bytes = store s.bytes r.start xs }

length-store : (bytes : List ℕ) (p : ℕ) (xs : List ℕ) → length (store bytes p xs) ≡ length bytes
unfolding store
length-store bytes p [] = refl
length-store bytes p (x ∷ xs) = length-store (set bytes p x) (p + 1) xs ∙ length-set bytes p x

get_or-store_outside :
    (bytes : List ℕ) (p : ℕ) (xs : List ℕ) (j : ℕ)
    → (j < p) ⊎ (p + length xs ≤ j)
    → get_or (store bytes p xs) j 0 ≡ get_or bytes j 0
unfolding store
get_or-store_outside bytes p [] j h = refl
get_or-store_outside bytes p (x ∷ xs) j h =
    get_or-store_outside (set bytes p x) (p + 1) xs j (ground arith)
    ∙ get_or-set_ne bytes p j x 0 (ground arith)

slice-store_outside :
    (bytes : List ℕ) (p : ℕ) (xs : List ℕ) (start len : ℕ)
    → (start + len ≤ p) ⊎ (p + length xs ≤ start)
    → slice (store bytes p xs) start len ≡ slice bytes start len
unfolding slice
slice-store_outside bytes p xs start zero h = refl
slice-store_outside bytes p xs start (suc len) h = cc (
  get_or-store_outside bytes p xs start (ground arith),
  slice-store_outside bytes p xs (start + 1) len (ground arith),
)

slice-store_self :
    (bytes : List ℕ) (p : ℕ) (xs : List ℕ)
    → p + length xs ≤ length bytes
    → slice (store bytes p xs) p (length xs) ≡ xs
unfolding slice store
slice-store_self bytes p [] h = refl
slice-store_self bytes p (x ∷ xs) h = cc (
  get_or-store_outside (set bytes p x) (p + 1) xs p (inl (omega arith)),
  get_or-set_self bytes p x 0 (omega arith),
  slice-store_self (set bytes p x) (p + 1) xs (omega (arith, length-set bytes p x)),
)

-- Writing to a reservation changes no byte of a commit that is apart from it, and keeps the layout.
pub read-write_apart :
    (s : Buffer) (r : Reservation) (xs : List ℕ) (c : Commit)
    → Layout s
    → r.start + length xs ≤ r.end
    → c.start ≤ c.end
    → (c.end ≤ r.start) ⊎ (r.end ≤ c.start)
    → (read (write s r xs) c ≡ read s c) × Layout (write s r xs)
unfolding read write
read-write_apart s r xs c v fits ordered apart = (
  slice-store_outside s.bytes r.start xs c.start (c.end - c.start) (ground arith),
  record {
    small = v.small;
    allocated = length-store s.bytes r.start xs ∙ v.allocated;
    a_ordered = v.a_ordered;
    a_inside = v.a_inside;
    b_first = v.b_first;
    b_before_a = v.b_before_a;
    a_empty_at_0 = v.a_empty_at_0;
  },
)

-- What is written at the start of a reservation is read from a commit that begins there and is as long.
read-write_self :
    (s : Buffer) (r : Reservation) (xs : List ℕ) (id : ℕ)
    → Layout s
    → r.start + length xs ≤ s.length
    → read (write s r xs) (record { id = id; start = r.start; end = r.start + length xs }) ≡ xs
unfolding read write
read-write_self s r xs id v h =
    ap (slice (store s.bytes r.start xs) r.start) (omega arith)
    ∙ slice-store_self s.bytes r.start xs (omega (arith, v.allocated))
