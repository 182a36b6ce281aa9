-- ===== src/Store/Admin.antt =====
-- The administrator's thread, the signal handler and the watching child process of
-- EXAMS/examen_29_09_2024_STORE/server.c.
use pso_workspace.Base.{
  ℕ, zero, suc, ◌+◌, ◌/◌, false, Option, none, some, List, [], ◌∷◌, if◌then◌else◌,
}
use pso_workspace.Base.Text.{Text, codes, str_eq, tokens, atoi}
use pso_workspace.Base.Integers.{ℤ, pos, negsuc, pos_part, neg_ℤ, ◌+ℤ◌}
use pso_workspace.Base.Machine.{M, ◌>>=◌, ◌>>◌, pure, get_state, modify, deref, when}
use pso_workspace.Store.State.{
  Money, Product, Shop, Sent, message, number, products_mutex, reducere_mutex, lock, unlock, slot,
  update, set_product,
}
use pso_workspace.Store.Stock.{eq_ℤ}
use pso_workspace.Store.Handler.{is_blank, next_token, handle_client}

-- `amound / 100` of two ints, which C rounds towards zero.
abbrev pub hundredth : ℤ → ℤ
hundredth (pos n) = pos (n / 100)
hundredth (negsuc n) = neg_ℤ (pos (suc n / 100))

module _ {A : Type 0} (money : Money A) where
  -- The loop of "red": `reducere` is what the last price was lowered by.
  unfoldable pub reduce_prices : ℤ → (ℕ → Product A) → ℕ → ℕ → A → (ℕ → Product A) × A
  reduce_prices amount products zero i reducere = (products, reducere)
  reduce_prices amount products (suc left) i reducere =
      let cut = money.scale (hundredth amount) (products i).price in
      reduce_prices amount
        (update products i (record (products i) { price = money.sub (products i).price cut })) left
        (i + 1) cut

  -- The loop of signal_handler.
  unfoldable pub raise_prices : A → (ℕ → Product A) → ℕ → ℕ → (ℕ → Product A)
  raise_prices flag products zero i = products
  raise_prices flag products (suc left) i =
      raise_prices flag
        (update products i (record (products i) { price = money.add (products i).price flag })) left
        (i + 1)

  -- "cant": the number that the administrator gives is an index into the list.
  unfoldable pub add_stock : ℤ → ℤ → M (Shop A) (Unit {0})
  add_stock product_id amount = do
    lock products_mutex
    i ← deref (slot product_id)
    modify (set_product i (λ p. record p { nr_bucati = p.nr_bucati +ℤ amount }))
    unlock products_mutex

  unfoldable pub reduce : ℤ → M (Shop A) (Unit {0})
  reduce amount = do
    lock products_mutex
    s ← get_state
    let (products, reducere) =
        reduce_prices amount s.products (pos_part s.products_nr) 0 money.zero_amount
    modify (λ t. record t { products = products })
    unlock products_mutex
    lock reducere_mutex
    modify (λ t. record t { reducere_flag = reducere })
    unlock reducere_mutex

  -- One line of recv_stdin_from_admin.
  unfoldable pub admin_line : Text → M (Shop A) (Unit {0})
  unfolding add_stock reduce
  admin_line buffer = do
    (first, rest) ← next_token (tokens is_blank buffer)
    (field, rest') ← next_token rest
    (third, others) ← next_token rest'
    when (str_eq field (codes "cant")) (add_stock (atoi first) (atoi third))
    when (str_eq field (codes "red")) (reduce (atoi third))

  restore : A → M (Shop A) (Unit {0})
  restore flag = do
    lock products_mutex
    modify (λ s. record s { products = raise_prices flag s.products (pos_part s.products_nr) 0 })
    unlock products_mutex
    modify (λ s. record s { reducere_flag = money.zero_amount })
    unlock reducere_mutex

  -- The branch without a reduction does not free `reducere_mutex`.
  unfoldable pub signal_handler : M (Shop A) (Unit {0})
  unfolding restore
  signal_handler = do
    lock reducere_mutex
    s ← get_state
    if money.is_zero s.reducere_flag then pure tt else restore s.reducere_flag

  -- The child reads 4 bytes of the reply as an int.
  answer : List Sent → Option ℤ
  answer [] = none
  answer (number n ∷ xs) = some n
  answer (message t ∷ xs) = none

  -- One round of talk_to_parent_from_child_proc: it asks for the stock, and signals the server when
  -- there is none.
  unfoldable pub watch_round : M (Shop A) (Unit {0})
  unfolding answer signal_handler
  watch_round = do
    modify (λ s. record s { sent = []; is_closed = false })
    handle_client money (codes "stock")
    s ← get_state
    sum ← deref (answer s.sent)
    when (eq_ℤ sum (pos 0)) signal_handler
