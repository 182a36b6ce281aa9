-- ===== src/Encrypt/Tests.antt =====
-- The key and the pipes of EXAMS/encrypted_2023/server.c at small values.
use pso_workspace.Base.{ℕ, ◌+◌, ◌*◌, ◌≤◌, ◌<◌, ◌≡◌, ◌≢◌, refl, true, some, none, replicate, arith}
use pso_workspace.Encrypt.Key.{generate_random_key, key_string, child_handle_functin, exec_args}
use pso_workspace.Encrypt.Pipes.{init_pip, own_pip}
use pso_workspace.Encrypt.Digits.{bytes_of, key_roundtrip}
use pso_workspace.Encrypt.Ends.{opened, child_pipes}

key_roundtrip_example :
    (key : ℕ → ℕ) × (generate_random_key (some (replicate 16 250)) ≡ some key)
    × (bytes_of (key_string key) ≡ replicate 16 250)
    × (child_handle_functin key true 3 ≡ some (exec_args key, 3))
key_roundtrip_example = key_roundtrip (replicate 16 250) true 3 (omega arith) refl

abbrev numbered : ℕ → ℕ → ℕ
numbered call head = call * 2 + head

numbered_differ : (c d h k : ℕ) → h < 2 → k < 2 → numbered c h ≡ numbered d k → (c ≡ d) × (h ≡ k)
numbered_differ c d h k a b e = omega arith

abbrev three_opened : ℕ → ℕ
three_opened = opened numbered numbered_differ (λ i. 0) 3

child_pipes_example :
    (3 ≤ 2
      → init_pip three_opened 3 1
        ≡ some (record { read_from = 4; read_other = 5; write_other = 6; write_to = 7 }))
    × (3 ≤ 3 → 1 ≤ 1 → init_pip three_opened 3 1 ≢ some (own_pip three_opened 1))
    × (3 ≤ 3 → init_pip three_opened 3 2 ≡ none)
child_pipes_example = child_pipes numbered numbered_differ (λ i. 0) 3 1 (omega arith)
