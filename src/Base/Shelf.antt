-- ===== src/Base/Shelf.antt =====
-- An array with a count of the places in use, from which the first item is taken by moving each of
-- the others one place down. The loop that moves them reads the place behind the last item too:
-- `take_shifted` reads whatever stands there, and in `take_item`, which tells whether all accesses are
-- inside of the array, one outside of it is `none`.
use Prim.Native.Nat.{ℕ, zero, suc, ◌+◌, ◌-◌, ◌<◌, ◌≤◌}
use mathlib.Core.Path.{◌≡◌, refl, sym, ◌∙◌}
use mathlib.Core.Option.{Option, none, some}
use mathlib.Core.List.{List, [], ◌∷◌, ◌++◌}
use native.Mathlib.Omega.{arith}
use native.Mathlib.Decide.{dec_lt}
use mathlib.Core.Logic.{◌≢◌}
use pso_workspace.Base.Tests.{◌==◌, ltb, if◌then◌else◌}

pub record Shelf (A : Type 0) : Type 0 where
  pub items : ℕ → A
  pub count : ℕ

module _ {A : Type 0} where
  abbrev pub assign : (ℕ → A) → ℕ → A → ℕ → A
  assign f i x j = if i == j then x else f j

  -- The items from index `i` on, `n` of them.
  unfoldable pub pending : (ℕ → A) → ℕ → ℕ → List A
  pending f zero i = []
  pending f (suc n) i = f i ∷ pending f n (i + 1)

  -- The items in the order in which they are taken.
  abbrev pub listed : Shelf A → List A
  listed s = pending s.items s.count 0

module _ {A : Type 0} where
  -- The array once the loop has moved `n` items from index `i` on, with what stands behind its end as
  -- part of it.
  unfoldable pub shifted : (ℕ → A) → ℕ → ℕ → ℕ → A
  shifted f zero i = f
  shifted f (suc n) i = shifted (assign f i (f (i + 1))) n (i + 1)

  -- The first item, and what the loop leaves; its read behind the end is no fault here.
  unfoldable pub take_shifted : Shelf A → A × Shelf A
  unfolding shifted
  take_shifted s = (s.items 0, record { items = shifted s.items s.count 0; count = s.count - 1 })

module _ {A : Type 0} (capacity : ℕ) where
  unfoldable pub add_item : Shelf A → A → Option (Shelf A)
  add_item s x =
      if ltb s.count capacity
      then some (record { items = assign s.items s.count x; count = suc s.count })
      else none

  -- The loop that moves the items from index `i` on, `left` of them.
  unfoldable pub shift_items : (ℕ → A) → ℕ → ℕ → Option (ℕ → A)
  shift_items f zero i = some f
  shift_items f (suc left) i =
      let rest = shift_items (assign f i (f (i + 1))) left (i + 1) in
      if ltb (i + 1) capacity then rest else none

  unfoldable pub take_item : Shelf A → Option (A × Shelf A)
  unfolding shift_items
  take_item s = elim (shift_items s.items s.count 0) [
    | none ↦ none
    | some f ↦ some (s.items 0, record { items = f; count = s.count - 1 })
  ]

  -- The same with a loop that stops at the last item.
  unfoldable pub take_front : Shelf A → Option (A × Shelf A)
  unfolding shift_items
  take_front s = elim (shift_items s.items (s.count - 1) 0) [
    | none ↦ none
    | some f ↦ some (s.items 0, record { items = f; count = s.count - 1 })
  ]

module _ {A : Type 0} where
  pending-assign :
      (f : ℕ → A) (k : ℕ) (x : A) (n i : ℕ) → i + n ≤ k → pending (assign f k x) n i ≡ pending f n i
  unfolding pending
  pending-assign f k x zero i h = refl
  pending-assign f k x (suc n) i h = ground (arith, pending-assign f k x n (i + 1))

  pending-below :
      (f : ℕ → A) (k : ℕ) (x : A) (n i : ℕ) → k < i → pending (assign f k x) n i ≡ pending f n i
  unfolding pending
  pending-below f k x zero i h = refl
  pending-below f k x (suc n) i h = ground (arith, pending-below f k x n (i + 1))

  pending-last :
      (f : ℕ → A) (x : A) (n i : ℕ)
      → pending (assign f (i + n) x) (suc n) i ≡ pending f n i ++ x ∷ []
  unfolding pending
  pending-last f x zero i = ground arith
  pending-last f x (suc n) i = ground (arith, pending-last f x n (i + 1))

module _ {A : Type 0} where
  shifted-below : (f : ℕ → A) (n i k : ℕ) → k < i → shifted f n i k ≡ f k
  unfolding shifted
  shifted-below f zero i k h = refl
  shifted-below f (suc n) i k h = ground (arith, shifted-below (assign f i (f (i + 1))) n (i + 1) k)

  pending-shifted :
      (f : ℕ → A) (n i k : ℕ) → k ≤ n → pending (shifted f n i) k i ≡ pending f k (i + 1)
  unfolding shifted pending
  pending-shifted f n i zero h = refl
  pending-shifted f zero i (suc k) h = absurd (omega arith)
  pending-shifted f (suc n) i (suc k) h = ground (
    arith,
    shifted-below (assign f i (f (i + 1))) n (i + 1) i,
    pending-shifted (assign f i (f (i + 1))) n (i + 1) k,
    pending-below f i (f (i + 1)) k (i + 1 + 1),
  )

  shifted_first :
      (f : ℕ → A) (n : ℕ) → 0 < n → pending f n 0 ≡ f 0 ∷ pending (shifted f n 0) (n - 1) 0
  unfolding pending
  shifted_first f zero h = absurd (omega arith)
  shifted_first f (suc n) h = ground (arith, pending-shifted f (suc n) 0 n)

  -- Whatever stands behind the end, the item that is taken was the first, and the others stay.
  pub listed-take_shifted :
      (capacity : ℕ) (behind : A) (s : Shelf A)
      → 0 < s.count
      → s.count ≤ capacity
      → listed s
        ≡ (take_shifted (record s { items = assign s.items capacity behind })).0
          ∷ listed (take_shifted (record s { items = assign s.items capacity behind })).1
  unfolding take_shifted
  listed-take_shifted capacity behind s h low =
      sym (pending-assign s.items capacity behind s.count 0 (omega arith))
      ∙ shifted_first (assign s.items capacity behind) s.count h

module _ {A : Type 0} (capacity : ℕ) where
  -- An item that is added comes behind the others.
  pub listed-add_item :
      (s r : Shelf A) (x : A)
      → add_item capacity s x ≡ some r
      → (r.count ≤ capacity) × (r.count ≡ suc s.count) × (listed r ≡ listed s ++ x ∷ [])
  unfolding add_item
  listed-add_item s r x e = ground (arith, pending-last s.items x s.count 0)

  pub add_item_room : (s : Shelf A) (x : A) → s.count < capacity → add_item capacity s x ≢ none
  unfolding add_item
  add_item_room s x h e = ground arith

  shift_items_lem :
      (f : ℕ → A) (n i : ℕ) → i + n < capacity → shift_items capacity f n i ≡ some (shifted f n i)
  unfolding shift_items shifted
  shift_items_lem f zero i h = refl
  shift_items_lem f (suc n) i h = ground (arith, shift_items_lem (assign f i (f (i + 1))) n (i + 1))

  shift_items_over :
      (f : ℕ → A) (n i : ℕ) → i < capacity → capacity ≤ i + n → shift_items capacity f n i ≡ none
  unfolding shift_items
  shift_items_over f zero i h k = absurd (omega arith)
  shift_items_over f (suc n) i h k =
      ground (arith, shift_items_over (assign f i (f (i + 1))) n (i + 1))

  -- From a full array nothing can be taken without the access behind its end.
  pub take_item-full :
      (s : Shelf A) → 0 < capacity → capacity ≤ s.count → take_item capacity s ≡ none
  unfolding take_item
  take_item-full s h k = rw (shift_items_over s.items s.count 0 h (omega arith), take_item)

  taken_below :
      (f : ℕ → A) (n : ℕ) (r : Shelf A) (x : A)
      → 0 < n
      → n < capacity
      → take_item capacity (record { items = f; count = n }) ≡ some (x, r)
      → (n ≡ suc r.count) × (pending f n 0 ≡ x ∷ listed r)
  unfolding take_item pending
  taken_below f zero r x h b e = absurd (omega arith)
  taken_below f (suc n) r x h b e =
      ground (arith, shift_items_lem f (suc n) 0, pending-shifted f (suc n) 0 n)

  -- The item that is taken was the first, and the others stay.
  pub listed-take_item :
      (s r : Shelf A) (x : A)
      → 0 < s.count
      → 0 < capacity
      → take_item capacity s ≡ some (x, r)
      → (s.count < capacity) × (s.count ≡ suc r.count) × (listed s ≡ x ∷ listed r)
  listed-take_item s r x h c e = elim (dec_lt s.count capacity) [
    | yes below ↦
        let (less, order) = taken_below s.items s.count r x h below e in (below, less, order)
    | no above ↦ cc (take_item-full s c (omega arith))
  ]

  -- From an array that is neither empty nor full the first item can be taken.
  pub take_item_room : (s : Shelf A) → s.count < capacity → take_item capacity s ≢ none
  unfolding take_item
  take_item_room s h e = cc (shift_items_lem s.items s.count 0 (omega arith))

  front_below :
      (f : ℕ → A) (n : ℕ) (r : Shelf A) (x : A)
      → 0 < n
      → n ≤ capacity
      → take_front capacity (record { items = f; count = n }) ≡ some (x, r)
      → (n ≡ suc r.count) × (pending f n 0 ≡ x ∷ listed r)
  unfolding take_front pending
  front_below f zero r x h b e = absurd (omega arith)
  front_below f (suc n) r x h b e = ground (arith, shift_items_lem f n 0, pending-shifted f n 0 n)

  -- Here the first item is taken from a full array too.
  pub listed-take_front :
      (s r : Shelf A) (x : A)
      → 0 < s.count
      → s.count ≤ capacity
      → take_front capacity s ≡ some (x, r)
      → (s.count ≡ suc r.count) × (listed s ≡ x ∷ listed r)
  listed-take_front s r x h c e = front_below s.items s.count r x h c e

  pub take_front_room :
      (s : Shelf A) → 0 < s.count → s.count ≤ capacity → take_front capacity s ≢ none
  unfolding take_front
  take_front_room s h c e = cc (shift_items_lem s.items (s.count - 1) 0 (omega arith))
