-- ===== src/Store/Tests.antt =====
-- A shop with one customer and three products, in EXAMS/examen_29_09_2024_STORE/server.c. Amounts are
-- whole numbers here.
use pso_workspace.Base.{
  ℕ, suc, ◌+◌, ◌-◌, ◌*◌, ◌<◌, ◌≡◌, refl, true, false, [], ◌∷◌, arith, leb, ltb, ◌==◌, if◌then◌else◌,
  ◌&&◌,
}
use pso_workspace.Base.Text.{codes}
use pso_workspace.Base.Integers.{ℤ, pos, pos_part, ◌-ℤ◌}
use pso_workspace.Base.Machine.{done, Returns}
use pso_workspace.Store.State.{Money, Product, Shop, no_locks, message, set_product, set_customer}
use pso_workspace.Store.Stock.{eq_ℤ, delete_stock}
use pso_workspace.Store.Handler.{order}
use pso_workspace.Store.Sales.{order_lem}
use pso_workspace.Store.Deletion.{delete_stock_lem, is_sold_out}

abbrev coins : Money ℕ
coins = record {
  zero_amount = 0;
  is_zero = λ a. a == 0;
  covers = λ a b. leb b a;
  add = λ a b. a + b;
  sub = λ a b. a - b;
  scale = λ n a. pos_part n * a;
  parse = λ t. 0;
}

abbrev product : ℤ → ℕ → ℕ → Product ℕ
product id price pieces = record {
  name = codes "item";
  id = id;
  price = price;
  nr_bucati = pos pieces;
}

-- Product 101 is sold out.
abbrev shop : Shop ℕ
shop = record {
  products = λ i.
      if i == 0
      then product (pos 100) 5 3
      else if i == 1
      then product (pos 101) 5 0
      else product (pos 102) 90 1;
  products_nr = pos 3;
  customers = λ i. record { user_name = codes "ana"; id = pos 7; amount_of_money = 20 };
  customers_nr = 1;
  reducere_flag = 0;
  stock_null = 0;
  locks = no_locks;
  sent = [];
  is_closed = false;
}

first_user : (k : ℕ) → k < 0 → eq_ℤ (shop.customers k).id (pos 7) ≡ false
first_user k h = absurd (omega arith)

first_product : (k : ℕ) → k < 0 → eq_ℤ (shop.products k).id (pos 100) ≡ false
first_product k h = absurd (omega arith)

dear_product : (k : ℕ) → k < 2 → eq_ℤ (shop.products k).id (pos 102) ≡ false
dear_product k h = ground arith

order_lem_example :
    order coins (pos 7) (pos 100) shop
    ≡ done tt
        (record (set_customer 0
          (λ x. record x { amount_of_money = x.amount_of_money - 5 })
          (set_product 0 (λ x. record x { nr_bucati = pos 3 -ℤ pos 1 }) shop)) {
            stock_null = if eq_ℤ (pos 3 -ℤ pos 1) (pos 0) then 1 else 0;
            sent = message (codes "PURCHASE SUCCESFULL!!!!") ∷ [];
            is_closed = true;
          })
order_lem_example =
    order_lem coins (pos 7) (pos 100) 0 0 shop refl (omega arith) refl first_user (omega arith) refl
      first_product (omega arith) (omega arith) refl

last_sold_out : (k : ℕ) → 1 < k → k < 3 → is_sold_out (shop.products k) ≡ false
last_sold_out k l h = ground arith

delete_stock_lem_example :
    Returns
      (λ _ t.
        (t.locks ≡ no_locks)
        × (t.products_nr ≡ pos 2)
        × ((k : ℕ)
            → t.products k
              ≡ (if leb 1 k && ltb k 3 then shop.products (suc k) else shop.products k)))
      (delete_stock shop)
delete_stock_lem_example =
    delete_stock_lem shop 3 1 refl refl (omega arith) (omega arith) refl last_sold_out
