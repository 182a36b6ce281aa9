-- ===== src/Store/Deletion.antt =====
-- What delete_stock of EXAMS/examen_29_09_2024_STORE/server.c takes off the list.
use pso_workspace.Base.{
  ℕ, zero, suc, ◌+◌, ◌-◌, ◌≤◌, ◌<◌, ◌≡◌, refl, Bool, true, false, arith, if◌then◌else◌, leb, ltb,
  ℕ_discrete, ◌&&◌, subst, sym, ◌∙◌,
}
use pso_workspace.Base.Integers.{pos, ◌-ℤ◌}
use pso_workspace.Base.Machine.{done, Returns}
use pso_workspace.Store.State.{Product, Shop, no_locks, update, max_items}
use pso_workspace.Store.Stock.{eq_ℤ, last_empty, shift_left, delete_stock}

module _ {A : Type 0} where
  abbrev pub is_sold_out : Product A → Bool
  is_sold_out p = eq_ℤ p.nr_bucati (pos 0)

  shift_left_lem :
      (products : ℕ → Product A) (left i k : ℕ)
      → shift_left products left i k
        ≡ (if leb i k && ltb k (i + left) then products (suc k) else products k)
  unfolding shift_left
  shift_left_lem products zero i k = ground arith
  shift_left_lem products (suc left) i k =
      ground (arith, shift_left_lem (update products i (products (i + 1))) left (i + 1) k)

  last_empty_none :
      (products : ℕ → Product A) (left i found : ℕ)
      → ((k : ℕ) → i ≤ k → k < i + left → is_sold_out (products k) ≡ false)
      → last_empty products left i found ≡ found
  unfolding last_empty
  last_empty_none products zero i found none = refl
  last_empty_none products (suc left) i found none = ground (
    arith,
    none i,
    last_empty_none products left (i + 1) found (λ k l h. none k (omega arith) (omega arith)),
  )

  last_empty_lem :
      (products : ℕ → Product A) (z left i found : ℕ)
      → i ≤ z
      → z < i + left
      → is_sold_out (products z) ≡ true
      → ((k : ℕ) → z < k → k < i + left → is_sold_out (products k) ≡ false)
      → last_empty products left i found ≡ z
  unfolding last_empty
  last_empty_lem products z zero i found low high sold rest = absurd (omega arith)
  last_empty_lem products z (suc left) i found low high sold rest = elim (ℕ_discrete i z) [
    | yes e ↦
        rw (subst (λ j. is_sold_out (products j) ≡ true) (sym e) sold) (
          last_empty_none products left (i + 1) i (λ k l h. rest k (omega arith) (omega arith)) ∙ e)
    | no ne ↦
        last_empty_lem products z left (i + 1) _ (omega arith) (omega arith) sold
          (λ k l h. rest k l (omega arith))
  ]

  module _ (s : Shop A) (n z : ℕ) (free : s.locks ≡ no_locks) (count : s.products_nr ≡ pos n)
      (bound : n < max_items) (low : z < n) where
    delete_stock_at :
        last_empty s.products n 0 0 ≡ z
        → delete_stock s
          ≡ done tt
              (record s { products = shift_left s.products (n - z) z; products_nr = pos (n - 1) })
    unfolding delete_stock ◌-ℤ◌
    delete_stock_at found = ground arith

    shifted :
        (k : ℕ)
        → shift_left s.products (n - z) z k
          ≡ (if leb z k && ltb k n then s.products (suc k) else s.products k)
    shifted k =
        subst
          (λ m.
            shift_left s.products (n - z) z k
            ≡ (if leb z k && ltb k m then s.products (suc k) else s.products k))
          (omega arith) (shift_left_lem s.products (n - z) z k)

  -- delete_stock, with the mutexes free and fewer than 1024 products, when `z` is the last sold-out
  -- one: exactly that product leaves the list, the ones behind it move up by one, those before it
  -- stay, the count falls by one, and the mutexes are free.
  pub delete_stock_lem :
      (s : Shop A) (n z : ℕ)
      → s.locks ≡ no_locks
      → s.products_nr ≡ pos n
      → n < max_items
      → z < n
      → is_sold_out (s.products z) ≡ true
      → ((k : ℕ) → z < k → k < n → is_sold_out (s.products k) ≡ false)
      → Returns
          (λ _ t.
            (t.locks ≡ no_locks)
            × (t.products_nr ≡ pos (n - 1))
            × ((k : ℕ)
                → t.products k ≡ (if leb z k && ltb k n then s.products (suc k) else s.products k)))
          (delete_stock s)
  delete_stock_lem s n z free count bound low sold rest =
      rw
        (delete_stock_at s n z free count bound low (
          last_empty_lem s.products z n 0 0 (omega arith) (omega arith) sold
            (λ k l h. rest k l (omega arith))))
        (free, refl, shifted s n z free count bound low)

  -- delete_stock when no product is sold out takes the first product off the list.
  pub delete_stock_unsold :
      (s : Shop A) (n : ℕ)
      → s.locks ≡ no_locks
      → s.products_nr ≡ pos n
      → 0 < n
      → n < max_items
      → ((k : ℕ) → k < n → is_sold_out (s.products k) ≡ false)
      → Returns
          (λ _ t.
            (t.locks ≡ no_locks)
            × (t.products_nr ≡ pos (n - 1))
            × ((k : ℕ) → t.products k ≡ (if ltb k n then s.products (suc k) else s.products k)))
          (delete_stock s)
  delete_stock_unsold s n free count some_left bound rest =
      rw
        (delete_stock_at s n 0 free count bound some_left
          (last_empty_none s.products n 0 0 (λ k l h. rest k (omega arith))))
        (free, refl, λ k. shifted s n 0 free count bound some_left k ∙ ground arith)
