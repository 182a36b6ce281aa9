-- ===== src/Store/Prices.antt =====
-- Reductions of the prices in EXAMS/examen_29_09_2024_STORE/server.c, and the signal that is to take
-- them back.
use mathlib.Core.Path.{fun_ext, ap}
use pso_workspace.Base.{◌∙◌, ℕ, zero, suc, ◌+◌, ◌<◌, ◌≡◌, refl, true, arith, ◌/◌}
use pso_workspace.Base.Integers.{pos, pos_part}
use pso_workspace.Base.Machine.{done, blocked, ◌>>◌}
use pso_workspace.Store.State.{Money, Product, Shop, no_locks, update, hold, reducere_mutex}
use pso_workspace.Store.Admin.{reduce_prices, reduce, signal_handler}

none_of_hundred : (n : ℕ) → n < 100 → n / 100 ≡ 0
none_of_hundred n small = omega arith

module _ {A : Type 0} (money : Money A) where
  -- A signal while no reduction is active is survived once: it leaves the reduction's mutex taken,
  -- and the next signal waits for it for ever.
  pub signal_handler_twice :
      (s : Shop A)
      → s.locks ≡ no_locks
      → money.is_zero s.reducere_flag ≡ true
      → (signal_handler money >> signal_handler money) s
        ≡ blocked (record s { locks = hold reducere_mutex true no_locks })
  unfolding signal_handler
  signal_handler_twice s free idle = ground arith

  module _ (nothing : (a : A) → money.scale (pos 0) a ≡ money.zero_amount)
      (unchanged : (a : A) → money.sub a money.zero_amount ≡ a) where
    update_self : (f : ℕ → Product A) (i k : ℕ) → update f i (f i) k ≡ f k
    update_self f i k = ground arith

    reduce_prices_small :
        (n left i : ℕ) (products : ℕ → Product A)
        → n < 100
        → reduce_prices money (pos n) products left i money.zero_amount
          ≡ (products, money.zero_amount)
    unfolding reduce_prices
    reduce_prices_small n zero i products small = refl
    reduce_prices_small n (suc left) i products small =
        rw (none_of_hundred n small, nothing, unchanged)
          (ap (λ f. reduce_prices money (pos n) f left (i + 1) money.zero_amount)
              (fun_ext (update_self products i))
            ∙ reduce_prices_small n left (i + 1) products small)

    -- "red" with a percentage below 100 changes no price, and records a reduction of zero: the
    -- percentage is divided by 100 as an int.
    pub reduce_below_hundred :
        (n : ℕ) (s : Shop A)
        → s.locks ≡ no_locks
        → n < 100
        → reduce money (pos n) s ≡ done tt (record s { reducere_flag = money.zero_amount })
    unfolding reduce
    reduce_below_hundred n s free small =
        ground (arith, reduce_prices_small n (pos_part s.products_nr) 0 s.products small)
