-- ===== src/Store/Handler.antt =====
-- handle_every_clientByThread of EXAMS/examen_29_09_2024_STORE/server.c, on the text that `recv` put
-- into its buffer, and what it calls.
use pso_workspace.Base.{
  ℕ, Bool, Option, none, some, List, [], ◌∷◌, ltb, ◌==◌, if◌then◌else◌, length,
}
use pso_workspace.Base.Text.{Text, codes, str_eq, tokens, atoi}
use pso_workspace.Base.Integers.{ℤ, pos, ◌-ℤ◌}
use pso_workspace.Base.Machine.{M, done, fault, ◌>>=◌, ◌>>◌, pure, get_state, modify, deref, when}
use pso_workspace.Store.State.{
  Money, Shop, message, number, customers_mutex, products_mutex, error_code, lock, unlock, sem_post,
  reply, set_product, set_customer,
}
use pso_workspace.Store.Stock.{eq_ℤ, get_user_by_id, get_product_by_id, verify_stock_child_proc}

abbrev pub is_blank : ℕ → Bool
is_blank c = c == 32

-- The token that a further strtok_r call returns, and those behind it; NULL is a fault where it is
-- used.
abbrev pub next_token : {S : Type 0} → List Text → M S (Text × List Text)
next_token [] s = fault
next_token (t ∷ ts) s = done (t, ts) s

module _ {A : Type 0} (money : Money A) where
  -- show_listst prints both lists, each under its mutex.
  unfoldable pub show_lists : M (Shop A) (Unit {0})
  show_lists = do
    lock customers_mutex
    unlock customers_mutex
    lock products_mutex
    unlock products_mutex

  allow : M (Shop A) ℕ
  allow = do unlock customers_mutex; unlock products_mutex; pure 0

  -- Where the money does not suffice, it returns with both mutexes taken.
  unfoldable pub verify_transaction : ℕ → ℕ → M (Shop A) ℕ
  unfolding allow
  verify_transaction customer product = do
    lock customers_mutex
    lock products_mutex
    s ← get_state
    if money.covers (s.customers customer).amount_of_money (s.products product).price
        then allow
        else pure 1

  unfoldable pub purchase : ℕ → ℕ → M (Shop A) (Unit {0})
  purchase customer product = do
    lock customers_mutex
    lock products_mutex
    modify (set_product product (λ p. record p { nr_bucati = p.nr_bucati -ℤ pos 1 }))
    s ← get_state
    when (eq_ℤ (s.products product).nr_bucati (pos 0)) sem_post
    modify (
        set_customer customer (λ c. record c {
          amount_of_money = money.sub c.amount_of_money (s.products product).price;
        }))
    unlock customers_mutex
    unlock products_mutex
    reply (message (codes "PURCHASE SUCCESFULL!!!!"))

  sell : ℕ → ℕ → M (Shop A) (Unit {0})
  unfolding verify_transaction purchase
  sell customer product = do
    verdict ← verify_transaction customer product
    if verdict == 0 then purchase customer product else reply (message (codes "NOT ENOUGHT MONEY"))

  with_customer : ℕ → ℤ → M (Shop A) (Unit {0})
  unfolding sell
  with_customer customer product_id = do
    product ← get_product_by_id product_id
    if product == error_code
        then reply (message (codes "WRONG PRODUCT ID"))
        else sell customer product

  unfoldable pub order : ℤ → ℤ → M (Shop A) (Unit {0})
  unfolding with_customer
  order user_id product_id = do
    customer ← get_user_by_id user_id
    if customer == error_code
        then reply (message (codes "WRONG CUSTOMER ID"))
        else with_customer customer product_id

  stock_request : M (Shop A) (Unit {0})
  unfolding verify_stock_child_proc
  stock_request = do sum ← verify_stock_child_proc; reply (number sum)

  order_request : Text → List Text → M (Shop A) (Unit {0})
  unfolding order
  order_request first rest = do (second, others) ← next_token rest; order (atoi first) (atoi second)

  -- `case_child_proc` has 100 bytes.
  abbrev fits_word : Text → Option Text
  fits_word word = if ltb (length word) 100 then some word else none

  unfoldable pub handle_client : Text → M (Shop A) (Unit {0})
  unfolding stock_request order_request show_lists
  handle_client buffer = do
    show_lists
    (first, rest) ← next_token (tokens is_blank buffer)
    word ← deref (fits_word first)
    if str_eq word (codes "stock") then stock_request else order_request first rest
