-- ===== src/Store/Stock.antt =====
-- The searches and the sums over the arrays of EXAMS/examen_29_09_2024_STORE/server.c, and the
-- removal of a sold-out product.
use pso_workspace.Base.{ℕ, zero, suc, ◌+◌, ◌-◌, Bool, ltb, ◌==◌, if◌then◌else◌, ◌||◌, not}
use pso_workspace.Base.Integers.{ℤ, pos, pos_part, neg_part, ◌+ℤ◌, ◌-ℤ◌}
use pso_workspace.Base.Machine.{M, done, fault, ◌>>=◌, ◌>>◌, pure, get_state}
use pso_workspace.Store.State.{
  Product, Customer, Shop, customers_mutex, products_mutex, max_items, error_code, lock, unlock,
  sem_wait, update,
}

abbrev pub eq_ℤ : ℤ → ℤ → Bool
eq_ℤ a b = pos_part a + neg_part b == pos_part b + neg_part a

module _ {A : Type 0} where
  -- The loops of get_USER_By_ID and get_PRODUCT_By_ID, `left` entries from index `i` on.
  unfoldable pub find_customer : (ℕ → Customer A) → ℤ → ℕ → ℕ → ℕ
  find_customer customers id zero i = error_code
  find_customer customers id (suc left) i =
      let rest = find_customer customers id left (i + 1) in
      if eq_ℤ (customers i).id id then i else rest

  unfoldable pub find_product : (ℕ → Product A) → ℤ → ℕ → ℕ → ℕ
  find_product products id zero i = error_code
  find_product products id (suc left) i =
      let rest = find_product products id left (i + 1) in
      if eq_ℤ (products i).id id then i else rest

  unfoldable pub get_user_by_id : ℤ → M (Shop A) ℕ
  get_user_by_id id = do
    lock customers_mutex
    s ← get_state
    unlock customers_mutex
    pure (find_customer s.customers id s.customers_nr 0)

  unfoldable pub get_product_by_id : ℤ → M (Shop A) ℕ
  get_product_by_id id = do
    lock products_mutex
    s ← get_state
    unlock products_mutex
    pure (find_product s.products id (pos_part s.products_nr) 0)

  -- verify_stock_child_proc
  unfoldable pub sum_stock : (ℕ → Product A) → ℕ → ℕ → ℤ → ℤ
  sum_stock products zero i sum = sum
  sum_stock products (suc left) i sum =
      sum_stock products left (i + 1) (sum +ℤ (products i).nr_bucati)

  unfoldable pub verify_stock_child_proc : M (Shop A) ℤ
  verify_stock_child_proc = do
    lock products_mutex
    s ← get_state
    unlock products_mutex
    pure (sum_stock s.products (pos_part s.products_nr) 0 (pos 0))

  -- The first loop of delete_stock: the last index with no stock, or `found`.
  unfoldable pub last_empty : (ℕ → Product A) → ℕ → ℕ → ℕ → ℕ
  last_empty products zero i found = found
  last_empty products (suc left) i found =
      last_empty products left (i + 1) (if eq_ℤ (products i).nr_bucati (pos 0) then i else found)

  -- Its second loop: each entry from `i` on is overwritten by the next one.
  unfoldable pub shift_left : (ℕ → Product A) → ℕ → ℕ → ℕ → Product A
  shift_left products zero i = products
  shift_left products (suc left) i = shift_left (update products i (products (i + 1))) left (i + 1)

  removed : Shop A → ℕ → Shop A
  removed s i = record s {
    products = shift_left s.products (pos_part s.products_nr - i) i;
    products_nr = s.products_nr -ℤ pos 1;
  }

  -- The second loop reads one entry behind the last product, which the array has only below its
  -- capacity.
  remove_at : ℕ → M (Shop A) (Unit {0})
  unfolding removed
  remove_at i s =
      if ltb (pos_part s.products_nr) max_items || not (ltb i (pos_part s.products_nr))
      then done tt (removed s i)
      else fault

  unfoldable pub delete_stock : M (Shop A) (Unit {0})
  unfolding remove_at
  delete_stock = do
    lock products_mutex
    s ← get_state
    remove_at (last_empty s.products (pos_part s.products_nr) 0 0)
    unlock products_mutex

  -- One round of stock_verifier_handler_singleThreaded
  unfoldable pub stock_verifier_round : M (Shop A) (Unit {0})
  unfolding delete_stock
  stock_verifier_round = do sem_wait; delete_stock
