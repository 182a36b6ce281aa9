-- ===== src/Encrypt/Digits.antt =====
-- The digits in the key of EXAMS/encrypted_2023/server.c.
use pso_workspace.Base.{
  ℕ, zero, suc, ◌+◌, ◌-◌, ◌*◌, ◌/◌, ◌%◌, ◌<◌, ◌≡◌, refl, ap, ◌∙◌, some, List, [], ◌∷◌, length, ltb,
  ◌==◌, if◌then◌else◌, arith, false, Bool, none,
}
use pso_workspace.Base.Text.{Text}
use pso_workspace.Encrypt.Key.{
  exec_args, hex_digit, print_byte, print_bytes, zero_key, generate_random_key, string_at,
  key_string, child_handle_functin,
}

-- The digits of bytes one behind the other, and the bytes that digits stand for.
unfoldable pub hex : List ℕ → Text
hex [] = []
hex (byte ∷ bytes) = hex_digit (byte / 16) ∷ hex_digit (byte % 16) ∷ hex bytes

unfoldable pub digit_value : ℕ → ℕ
digit_value c = if ltb c 58 then c - 48 else c - 87

unfoldable pub bytes_of : Text → List ℕ
bytes_of [] = []
bytes_of (c ∷ []) = []
bytes_of (c ∷ d ∷ s) = (digit_value c * 16 + digit_value d) ∷ bytes_of s

abbrev pub AreBytes : List ℕ → Type 0
AreBytes [] = Unit
AreBytes (b ∷ bs) = (b < 256) × AreBytes bs

digit_value-hex_digit : (d : ℕ) → d < 16 → digit_value (hex_digit d) ≡ d
unfolding digit_value hex_digit
digit_value-hex_digit d h = ground arith

bytes_of-hex : (bs : List ℕ) → AreBytes bs → bytes_of (hex bs) ≡ bs
unfolding bytes_of hex
bytes_of-hex [] h = refl
bytes_of-hex (b ∷ bs) h =
    ground (arith, bytes_of-hex bs, digit_value-hex_digit (b / 16), digit_value-hex_digit (b % 16))

length-hex : (bs : List ℕ) → length (hex bs) ≡ 2 * length bs
unfolding hex
length-hex [] = refl
length-hex (b ∷ bs) = omega (arith, length-hex bs)

hex_digit-ne-zero : (d : ℕ) → (hex_digit d == 0) ≡ false
unfolding hex_digit
hex_digit-ne-zero d = ground arith

-- A round writes nothing before its place.
print_bytes-below :
    (key : ℕ → ℕ) (i : ℕ) (bs : List ℕ) (k : ℕ) → k < i * 2 → print_bytes key i bs k ≡ key k
unfolding print_bytes print_byte
print_bytes-below key i [] k h = refl
print_bytes-below key i (b ∷ bs) k h =
    ground (arith, print_bytes-below (print_byte key i b) (i + 1) bs k)

print_byte-cells :
    (key : ℕ → ℕ) (i b : ℕ)
    → (print_byte key i b (i * 2) ≡ hex_digit (b / 16))
      × (print_byte key i b (i * 2 + 1) ≡ hex_digit (b % 16))
      × (print_byte key i b ((i + 1) * 2) ≡ 0)
unfolding print_byte
print_byte-cells key i b = ground arith

-- A step of the reading of a string.
string_at-next :
    (key : ℕ → ℕ) (left i d : ℕ)
    → key i ≡ hex_digit d
    → string_at key (suc left) i ≡ hex_digit d ∷ string_at key left (i + 1)
unfolding string_at
string_at-next key left i d e = rw (e, hex_digit-ne-zero d) refl

string_at-print_bytes :
    (key : ℕ → ℕ) (i : ℕ) (bs : List ℕ) (left : ℕ)
    → key (i * 2) ≡ 0
    → 2 * length bs < left
    → string_at (print_bytes key i bs) left (i * 2) ≡ hex bs
unfolding hex print_bytes
string_at-print_bytes key i bs zero z h = absurd (omega arith)
string_at-print_bytes key i [] (suc left) z h = unfold string_at in rw z refl
string_at-print_bytes key i (b ∷ bs) (suc zero) z h = absurd (omega arith)
string_at-print_bytes key i (b ∷ bs) (suc (suc left)) z h =
    let (high, low, end) = print_byte-cells key i b in
    let all = print_bytes (print_byte key i b) (i + 1) bs in
    let below = print_bytes-below (print_byte key i b) (i + 1) bs in
    let e : i * 2 + 1 + 1 ≡ (i + 1) * 2 = omega arith in
    string_at-next all (suc left) (i * 2) (b / 16) (below (i * 2) (omega arith) ∙ high)
    ∙ ap (λ (t : Text). hex_digit (b / 16) ∷ t)
        (string_at-next all left (i * 2 + 1) (b % 16) (below (i * 2 + 1) (omega arith) ∙ low)
          ∙ ap (λ (t : Text). hex_digit (b % 16) ∷ t)
              (rw e (string_at-print_bytes (print_byte key i b) (i + 1) bs left end (omega arith))))

-- The key of sixteen random bytes: its digits are those of the bytes, so that the bytes can be had back
-- from it, and a child that is given it starts openssl with it if dup2 succeeds, and exits if not.
pub key_roundtrip :
    (bytes : List ℕ) (dup : Bool) (stdin : ℕ)
    → AreBytes bytes
    → length bytes ≡ 16
    → (key : ℕ → ℕ) × (generate_random_key (some bytes) ≡ some key)
      × (bytes_of (key_string key) ≡ bytes)
      × (child_handle_functin key dup stdin ≡ (if dup then some (exec_args key, stdin) else none))
unfolding generate_random_key child_handle_functin
key_roundtrip bytes dup stdin h l =
    let key = print_bytes zero_key 0 bytes in
    let digits : key_string key ≡ hex bytes =
      string_at-print_bytes zero_key 0 bytes 40 refl (omega arith) in
    (
      key,
      refl,
      ap bytes_of digits ∙ bytes_of-hex bytes h,
      rw (ap length digits, length-hex bytes, l) refl,
    )
