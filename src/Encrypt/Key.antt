-- ===== src/Encrypt/Key.antt =====
-- The key of EXAMS/encrypted_2023/server.c: the global array `key`, what generate_random_key writes
-- into it, and what a child makes of it. The random bytes are an argument, `none` where RAND_bytes
-- fails.
use pso_workspace.Base.{
  Bool, ℕ, zero, suc, ◌+◌, ◌*◌, ◌/◌, ◌%◌, Option, none, some, List, [], ◌∷◌, length, ltb, ◌==◌,
  if◌then◌else◌,
}
use pso_workspace.Base.Text.{Text, codes}
use pso_workspace.Base.Shelf.{assign}

abbrev pub key_size : ℕ
key_size = 40

-- A digit of `%02x`.
unfoldable pub hex_digit : ℕ → ℕ
hex_digit d = if ltb d 10 then d + 48 else d + 87

-- `sprintf(key + (i * 2), "%02x", buffer[i])`, with the zero behind it.
unfoldable pub print_byte : (ℕ → ℕ) → ℕ → ℕ → ℕ → ℕ
print_byte key i byte =
    assign (assign (assign key (i * 2) (hex_digit (byte / 16))) (i * 2 + 1) (hex_digit (byte % 16)))
      (i * 2 + 2) 0

-- The loop of generate_random_key from index `i` on.
unfoldable pub print_bytes : (ℕ → ℕ) → ℕ → List ℕ → ℕ → ℕ
print_bytes key i [] = key
print_bytes key i (byte ∷ bytes) = print_bytes (print_byte key i byte) (i + 1) bytes

abbrev pub zero_key : ℕ → ℕ
zero_key i = 0

-- `none` is the exit.
unfoldable pub generate_random_key : Option (List ℕ) → Option (ℕ → ℕ)
generate_random_key none = none
generate_random_key (some bytes) = some (print_bytes zero_key 0 bytes)

-- The string in an array from index `i` on, of at most so many characters.
unfoldable pub string_at : (ℕ → ℕ) → ℕ → ℕ → Text
string_at key zero i = []
string_at key (suc left) i =
    let rest = string_at key left (i + 1) in if key i == 0 then [] else key i ∷ rest

abbrev pub key_string : (ℕ → ℕ) → Text
key_string key = string_at key key_size 0

abbrev pub exec_args : (ℕ → ℕ) → List Text
exec_args key =
    codes "/usr/bin/openssl"
    ∷ codes "enc"
    ∷ codes "-aes-128-ecb"
    ∷ codes "-e"
    ∷ codes "-K"
    ∷ key_string key
    ∷ codes "-nopad"
    ∷ codes "-out"
    ∷ codes "output.txt"
    ∷ []

-- child_handle_functin: what execvp gets, and the standard input. Whether dup2 succeeds is an argument;
-- `none` is an exit.
unfoldable pub child_handle_functin : (ℕ → ℕ) → Bool → ℕ → Option (List Text × ℕ)
child_handle_functin key dup stdin =
    if length (key_string key) == 32
    then (if dup then some (exec_args key, stdin) else none)
    else none
