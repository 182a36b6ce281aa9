-- ===== src/Store/Load.antt =====
-- read_files_and_make_the_DB of EXAMS/examen_29_09_2024_STORE/server.c, on the lines of the files
-- customers.txt and products.txt.
use pso_workspace.Base.{ℕ, suc, Bool, false, List, [], ◌∷◌, ◌==◌}
use pso_workspace.Base.Text.{Text, tokens, cut, atoi}
use pso_workspace.Base.Integers.{pos, ◌+ℤ◌}
use pso_workspace.Base.Machine.{M, ◌>>=◌, ◌>>◌, pure, get_state, modify, deref}
use pso_workspace.Store.State.{
  Money, Product, Customer, Shop, no_locks, slot, set_product, set_customer,
}
use pso_workspace.Store.Handler.{next_token}

abbrev pub is_comma : ℕ → Bool
is_comma c = c == 44

module _ {A : Type 0} (money : Money A) where
  unfoldable pub insert_into_customers_list : Customer A → M (Shop A) (Unit {0})
  insert_into_customers_list customer = do
    s ← get_state
    i ← deref (slot (pos s.customers_nr))
    modify (set_customer i (λ c. customer))
    modify (λ t. record t { customers_nr = suc t.customers_nr })

  unfoldable pub insert_into_products_list : Product A → M (Shop A) (Unit {0})
  insert_into_products_list product = do
    s ← get_state
    i ← deref (slot s.products_nr)
    modify (set_product i (λ p. product))
    modify (λ t. record t { products_nr = t.products_nr +ℤ pos 1 })

  -- "id,name,money", with the newline cut off
  unfoldable pub load_customer : Text → M (Shop A) (Unit {0})
  unfolding insert_into_customers_list
  load_customer line = do
    (id, rest) ← next_token (tokens is_comma (cut 10 line).0)
    (name, rest') ← next_token rest
    (amount, others) ← next_token rest'
    insert_into_customers_list
        (record { user_name = name; id = atoi id; amount_of_money = money.parse amount })

  -- "id,name,price,pieces"
  unfoldable pub load_product : Text → M (Shop A) (Unit {0})
  unfolding insert_into_products_list
  load_product line = do
    (id, rest) ← next_token (tokens is_comma line)
    (name, rest') ← next_token rest
    (price, rest'') ← next_token rest'
    (pieces, others) ← next_token rest''
    insert_into_products_list
        (record { name = name; id = atoi id; price = money.parse price; nr_bucati = atoi pieces })

  unfoldable pub load_customers : List Text → M (Shop A) (Unit {0})
  unfolding load_customer
  load_customers [] = pure tt
  load_customers (line ∷ lines) = do load_customer line; load_customers lines

  unfoldable pub load_products : List Text → M (Shop A) (Unit {0})
  unfolding load_product
  load_products [] = pure tt
  load_products (line ∷ lines) = do load_product line; load_products lines

  -- The globals as C starts them, and then both files.
  abbrev pub no_shop : Shop A
  no_shop = record {
    products = λ i. record { name = []; id = pos 0; price = money.zero_amount; nr_bucati = pos 0 };
    products_nr = pos 0;
    customers = λ i. record { user_name = []; id = pos 0; amount_of_money = money.zero_amount };
    customers_nr = 0;
    reducere_flag = money.zero_amount;
    stock_null = 0;
    locks = no_locks;
    sent = [];
    is_closed = false;
  }

  unfoldable pub read_files_and_make_the_db : List Text → List Text → M (Shop A) (Unit {0})
  unfolding load_customers load_products
  read_files_and_make_the_db customers products = do
    load_customers customers
    load_products products
