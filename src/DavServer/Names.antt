-- ===== src/DavServer/Names.antt =====
-- The names of the files with the output of a job of lab14_DAv/server.c.
use mathlib.Core.List.{append_assoc}
use pso_workspace.Base.{
  sym, ◌∙◌, dec_lt, lt→ltb, false, ℕ, zero, suc, ◌+◌, ◌/◌, ◌%◌, ◌<◌, ◌≡◌, refl, [], ◌∷◌, ◌++◌,
  arith, ltb, ◌==◌,
}
use pso_workspace.Base.Text.{Text, codes, decimal}
use pso_workspace.DavServer.State.{digit_count, fill_digits, stdout_name, filename_out}

digit_count-zero : (fuel : ℕ) → digit_count fuel 0 ≡ 0
unfolding digit_count
digit_count-zero zero = refl
digit_count-zero (suc fuel) = refl

fill_digits_lem :
    (fuel id : ℕ) (s : Text)
    → 0 < id
    → fill_digits (digit_count fuel id) id s ≡ decimal fuel id ++ s
unfolding fill_digits digit_count decimal
fill_digits_lem zero id s h = refl
fill_digits_lem (suc fuel) id s h = elim (dec_lt id 10) [
  | yes l ↦
      let e : id / 10 ≡ 0 = omega arith in
      let p : (id == 0) ≡ false = ground arith in
      rw (p, e, digit_count-zero fuel, lt→ltb id 10 l) refl
  | no l ↦
      let p : (id == 0) ≡ false = ground arith in
      let q : ltb id 10 ≡ false = ground arith in
      rw (p, q)
        (fill_digits_lem fuel (id / 10) ((id % 10 + 48) ∷ s) (omega arith)
          ∙ sym (append_assoc (decimal fuel (id / 10)) ((id % 10 + 48) ∷ []) s))
]

-- get_stdout opens the file into which the child of `run` has put the output of the job, for every
-- positive id.
pub stdout_name_lem : (id : ℕ) → 0 < id → stdout_name id ≡ filename_out id
unfolding stdout_name filename_out
stdout_name_lem id h =
    rw (fill_digits_lem 10 id [] h) (append_assoc (decimal 10 id) [] (codes ".stdout"))
