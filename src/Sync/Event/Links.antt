-- ===== src/Sync/Event/Links.antt =====
-- The list of linked waiters of an event (aquic-core/src/sync/util/event.rs).
use aquic.Base.{
  ℕ, ◌≡◌, refl, sym, subst, inl, inr, true, false, not, ◌&&◌, ◌||◌, List, [], ◌∷◌, ◌++◌, arith,
  ◌==◌, if◌then◌else◌, ==_iff, Bool-cases,
}
use aquic.Sync.Event.{is_linked, remove}

unfoldable pub Distinct : List ℕ → Type 0
unfolding is_linked
Distinct [] = Unit
Distinct (x ∷ list) = (is_linked x list ≡ false) × Distinct list

same_name : (a b : ℕ) → ((a == b) ≡ true) → a ≡ b
same_name a b e = (==_iff a b).0 e

pub is_linked-append :
    (w : ℕ) (xs ys : List ℕ) → is_linked w (xs ++ ys) ≡ (is_linked w xs || is_linked w ys)
unfolding is_linked
is_linked-append w [] ys = refl
is_linked-append w (x ∷ xs) ys = rw (is_linked-append w xs ys) (ground arith)

pub is_linked-single : (w x : ℕ) → is_linked w (x ∷ []) ≡ (w == x)
unfolding is_linked
is_linked-single w x = ground arith

pub Distinct-append :
    (list : List ℕ) (w : ℕ) → Distinct list → is_linked w list ≡ false → Distinct (list ++ w ∷ [])
unfolding Distinct is_linked
Distinct-append [] w d h = (refl, d)
Distinct-append (x ∷ list) w d h = (
  rw (is_linked-append x list (w ∷ []), is_linked-single x w) (ground (arith, d.0)),
  Distinct-append list w d.1 (ground arith),
)

self :
    (w y : ℕ) (list : List ℕ)
    → is_linked y list ≡ false
    → is_linked w (if y == y then list else y ∷ remove y list)
      ≡ (is_linked w (y ∷ list) && not (w == y))
unfolding is_linked
self w y list d = elim (Bool-cases (w == y)) [
  | inl e ↦
      subst
        (λ z.
          is_linked z (if y == y then list else y ∷ remove y list)
          ≡ (((z == y) || is_linked z list) && not (z == y)))
        (sym (same_name w y e)) (ground (arith, d))
  | inr e ↦ ground (arith, e)
]

-- `remove` takes out that waiter only.
pub is_linked-remove :
    (w x : ℕ) (list : List ℕ)
    → Distinct list
    → is_linked w (remove x list) ≡ (is_linked w list && not (w == x))
unfolding is_linked remove Distinct
is_linked-remove w x [] d = refl
is_linked-remove w x (y ∷ list) d = elim (Bool-cases (x == y)) [
  | inl e ↦
      subst
        (λ z.
          is_linked w (if z == y then list else y ∷ remove z list)
          ≡ (is_linked w (y ∷ list) && not (w == z)))
        (sym (same_name x y e)) (self w y list d.0)
  | inr e ↦ rw (e, is_linked-remove w x list d.1) (ground arith)
]

pub Distinct-remove : (x : ℕ) (list : List ℕ) → Distinct list → Distinct (remove x list)
unfolding remove Distinct
Distinct-remove x [] d = d
Distinct-remove x (y ∷ list) d = elim (Bool-cases (x == y)) [
  | inl e ↦ rw e d.1
  | inr e ↦ rw e (rw (is_linked-remove y x list d.1, d.0) refl, Distinct-remove x list d.1)
]
