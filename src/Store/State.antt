-- ===== src/Store/State.antt =====
-- The globals of EXAMS/examen_29_09_2024_STORE/server.c. Prices are C floats: their type and their
-- operations are a parameter.
use pso_workspace.Base.{
  ℕ, ◌+◌, ◌-◌, Bool, true, false, List, [], ◌∷◌, ◌++◌, Option, none, some, ltb, ◌==◌, if◌then◌else◌,
}
use pso_workspace.Base.Text.{Text}
use pso_workspace.Base.Integers.{ℤ, pos, negsuc}
use pso_workspace.Base.Machine.{M, done, blocked, modify}

-- `float`: `covers a b` is `a >= b`, `scale n a` is `n * a` for an int `n`, `parse` is `atof`.
pub record Money (A : Type 0) : Type 0 where
  pub zero_amount : A
  pub is_zero : A → Bool
  pub covers : A → A → Bool
  pub add : A → A → A
  pub sub : A → A → A
  pub scale : ℤ → A → A
  pub parse : Text → A

pub record Product (A : Type 0) : Type 0 where
  pub name : Text
  pub id : ℤ
  pub price : A
  pub nr_bucati : ℤ

pub record Customer (A : Type 0) : Type 0 where
  pub user_name : Text
  pub id : ℤ
  pub amount_of_money : A

pub data Mutex : Type 0 where
  customers_mutex products_mutex reducere_mutex : Mutex

pub record Locks : Type 0 where
  pub customers_held : Bool
  pub products_held : Bool
  pub reducere_held : Bool

-- What a handler sends: a message, or the 4 bytes of an int.
pub data Sent : Type 0 where
  message : Text → Sent
  number : ℤ → Sent

pub record Shop (A : Type 0) : Type 0 where
  pub products : ℕ → Product A
  pub products_nr : ℤ
  pub customers : ℕ → Customer A
  pub customers_nr : ℕ
  pub reducere_flag : A
  pub stock_null : ℕ
  pub locks : Locks
  pub sent : List Sent
  pub is_closed : Bool

abbrev pub max_items : ℕ
max_items = 1024

abbrev pub error_code : ℕ
error_code = 990099

abbrev pub no_locks : Locks
no_locks = record { customers_held = false; products_held = false; reducere_held = false }

abbrev pub is_held : Mutex → Locks → Bool
is_held customers_mutex l = l.customers_held
is_held products_mutex l = l.products_held
is_held reducere_mutex l = l.reducere_held

abbrev pub hold : Mutex → Bool → Locks → Locks
hold customers_mutex b l = record l { customers_held = b }
hold products_mutex b l = record l { products_held = b }
hold reducere_mutex b l = record l { reducere_held = b }

abbrev pub update : {B : Type 0} → (ℕ → B) → ℕ → B → ℕ → B
update f i b j = if i == j then b else f j

-- An index into one of the two arrays of 1024.
abbrev pub slot : ℤ → Option ℕ
slot (pos n) = if ltb n max_items then some n else none
slot (negsuc n) = none

module _ {A : Type 0} where
  abbrev pub lock : Mutex → M (Shop A) (Unit {0})
  lock m s =
      if is_held m s.locks then blocked s else done tt (record s { locks = hold m true s.locks })

  abbrev pub unlock : Mutex → M (Shop A) (Unit {0})
  unlock m = modify (λ s. record s { locks = hold m false s.locks })

  -- sem_post and sem_wait of `semaphore_stock_null`
  abbrev pub sem_post : M (Shop A) (Unit {0})
  sem_post = modify (λ s. record s { stock_null = s.stock_null + 1 })

  abbrev pub sem_wait : M (Shop A) (Unit {0})
  sem_wait s =
      if s.stock_null == 0 then blocked s else done tt (record s { stock_null = s.stock_null - 1 })

  abbrev pub send : Sent → M (Shop A) (Unit {0})
  send x = modify (λ s. record s { sent = s.sent ++ x ∷ [] })

  abbrev pub close_client : M (Shop A) (Unit {0})
  close_client = modify (λ s. record s { is_closed = true })

  -- The last three statements of most branches.
  abbrev pub reply : Sent → M (Shop A) (Unit {0})
  reply x = modify (λ s. record s { sent = s.sent ++ x ∷ []; is_closed = true })

  abbrev pub set_product : ℕ → (Product A → Product A) → Shop A → Shop A
  set_product i f s = record s { products = update s.products i (f (s.products i)) }

  abbrev pub set_customer : ℕ → (Customer A → Customer A) → Shop A → Shop A
  set_customer i f s = record s { customers = update s.customers i (f (s.customers i)) }
