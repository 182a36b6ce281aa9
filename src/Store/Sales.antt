-- ===== src/Store/Sales.antt =====
-- What an order of EXAMS/examen_29_09_2024_STORE/server.c does to the shop.
use pso_workspace.Base.{
  ℕ, zero, suc, ◌+◌, ◌≤◌, ◌<◌, ◌≡◌, true, false, [], ◌∷◌, ◌++◌, arith, if◌then◌else◌, ◌⊎◌, ◌==◌,
  ℕ_discrete, subst, sym,
}
use pso_workspace.Base.Text.{Text, codes}
use pso_workspace.Base.Integers.{ℤ, pos, pos_part, ◌-ℤ◌}
use pso_workspace.Base.Machine.{done, blocked, ◌>>◌}
use pso_workspace.Store.State.{
  Money, Product, Customer, Shop, message, no_locks, error_code, set_product, set_customer,
  customers_mutex, products_mutex, hold, max_items,
}
use pso_workspace.Store.Stock.{eq_ℤ, find_customer, find_product, get_user_by_id, get_product_by_id}
use pso_workspace.Store.Handler.{order, handle_client}

module _ {A : Type 0} where
  -- The search for a user id returns the index `z` of the first customer with the id.
  find_customer_first :
      (customers : ℕ → Customer A) (id : ℤ) (z left i : ℕ)
      → i ≤ z
      → z < i + left
      → eq_ℤ (customers z).id id ≡ true
      → ((k : ℕ) → k < z → eq_ℤ (customers k).id id ≡ false)
      → find_customer customers id left i ≡ z
  unfolding find_customer
  find_customer_first customers id z zero i low high here before = absurd (omega arith)
  find_customer_first customers id z (suc left) i low high here before = elim (ℕ_discrete i z) [
    | yes e ↦ rw (subst (λ j. eq_ℤ (customers j).id id ≡ true) (sym e) here) e
    | no ne ↦
        rw (before i (omega arith))
          (find_customer_first customers id z left (i + 1) (omega arith) (omega arith) here before)
  ]

  find_product_first :
      (products : ℕ → Product A) (id : ℤ) (z left i : ℕ)
      → i ≤ z
      → z < i + left
      → eq_ℤ (products z).id id ≡ true
      → ((k : ℕ) → k < z → eq_ℤ (products k).id id ≡ false)
      → find_product products id left i ≡ z
  unfolding find_product
  find_product_first products id z zero i low high here before = absurd (omega arith)
  find_product_first products id z (suc left) i low high here before = elim (ℕ_discrete i z) [
    | yes e ↦ rw (subst (λ j. eq_ℤ (products j).id id ≡ true) (sym e) here) e
    | no ne ↦
        rw (before i (omega arith))
          (find_product_first products id z left (i + 1) (omega arith) (omega arith) here before)
  ]

module _ {A : Type 0} (money : Money A) where
  module _ (user_id product_id : ℤ) (c p : ℕ) (s : Shop A) (free : s.locks ≡ no_locks)
      (user_in : c < s.customers_nr) (user : eq_ℤ (s.customers c).id user_id ≡ true)
      (user_first : (k : ℕ) → k < c → eq_ℤ (s.customers k).id user_id ≡ false)
      (product_in : p < pos_part s.products_nr) (product : eq_ℤ (s.products p).id product_id ≡ true)
      (product_first : (k : ℕ) → k < p → eq_ℤ (s.products k).id product_id ≡ false)
      (few_customers : s.customers_nr ≤ max_items)
      (few_products : pos_part s.products_nr ≤ max_items) where
    found_user : find_customer s.customers user_id s.customers_nr 0 ≡ c
    found_user =
        find_customer_first s.customers user_id c s.customers_nr 0 (omega arith) (omega arith) user
          user_first

    found_product : find_product s.products product_id (pos_part s.products_nr) 0 ≡ p
    found_product =
        find_product_first s.products product_id p (pos_part s.products_nr) 0 (omega arith)
          (omega arith) product product_first

    -- An order of a known customer for a known product that the customer can pay: one piece less is
    -- in stock, the price leaves the customer's account, the removing thread is woken exactly if no
    -- piece is left, the customer is told, and the mutexes are free.
    pub order_lem :
        money.covers (s.customers c).amount_of_money (s.products p).price ≡ true
        → let left = (s.products p).nr_bucati -ℤ pos 1 in
          order money user_id product_id s
          ≡ done tt
              (record (set_customer c
                (λ x. record x {
                  amount_of_money = money.sub x.amount_of_money (s.products p).price;
                })
                (set_product p (λ x. record x { nr_bucati = left }) s)) {
                  stock_null = if eq_ℤ left (pos 0) then s.stock_null + 1 else s.stock_null;
                  sent = s.sent ++ message (codes "PURCHASE SUCCESFULL!!!!") ∷ [];
                  is_closed = true;
                })
    unfolding order get_user_by_id get_product_by_id
    order_lem pays = ground (arith, found_user, found_product)

    -- An order that the customer cannot pay changes no list and is answered, but both mutexes stay
    -- taken.
    pub order_denied :
        money.covers (s.customers c).amount_of_money (s.products p).price ≡ false
        → order money user_id product_id s
          ≡ done tt (record s {
            locks = hold products_mutex true (hold customers_mutex true no_locks);
            sent = s.sent ++ message (codes "NOT ENOUGHT MONEY") ∷ [];
            is_closed = true;
          })
    unfolding order get_user_by_id get_product_by_id
    order_denied poor = ground (arith, found_user, found_product)

    -- After an order that the customer cannot pay, every further client waits for ever, whatever it
    -- asks.
    pub order_denied_blocks :
        (buffer : Text)
        → money.covers (s.customers c).amount_of_money (s.products p).price ≡ false
        → (order money user_id product_id >> handle_client money buffer) s
          ≡ blocked (record s {
            locks = hold products_mutex true (hold customers_mutex true no_locks);
            sent = s.sent ++ message (codes "NOT ENOUGHT MONEY") ∷ [];
            is_closed = true;
          })
    unfolding handle_client
    order_denied_blocks buffer poor = rw (order_denied poor, handle_client)

  -- An order under an id that no customer has, or for an id that no product has, is answered by the
  -- message for the first of the two that is unknown, and changes nothing else.
  pub order_unknown :
      (user_id product_id : ℤ) (s : Shop A)
      → s.locks ≡ no_locks
      → ((find_customer s.customers user_id s.customers_nr 0 ≡ error_code)
          ⊎ (find_product s.products product_id (pos_part s.products_nr) 0 ≡ error_code))
      → order money user_id product_id s
        ≡ done tt (record s {
          sent =
              s.sent
              ++ message (
                  if find_customer s.customers user_id s.customers_nr 0 == error_code
                  then codes "WRONG CUSTOMER ID"
                  else codes "WRONG PRODUCT ID")
                ∷ [];
          is_closed = true;
        })
  unfolding order get_user_by_id get_product_by_id
  order_unknown user_id product_id s free unknown = ground arith
