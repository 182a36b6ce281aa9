-- ===== src/JobServer/Commands.antt =====
-- What `run` of EXAMS/PART2_lab14/server.c executes for a command line that is put together from words.
use pso_workspace.Base.{
  ◌-◌, ◌≤◌, ◌≡◌, ◌≢◌, refl, sym, ◌∙◌, Bool, true, false, Bool-cases, inl, inr, none, some, List, [],
  ◌∷◌, ◌++◌, ltb, if◌then◌else◌, length, take, drop, length-append, take-append-drop, arith,
}
use pso_workspace.Base.Text.{Text, codes, str_eq_iff, tokens}
use pso_workspace.Base.Splitting.{AreWords, join, tokens-join, after_strtok-join}
use pso_workspace.JobServer.Launch.{is_delimiter, is_script, command_word, prepare}

-- The program that a command `w` with the arguments `ws` stands for, and the arguments that it gets: a
-- name that ends in `.sh` is given to bash, any other is the program itself.
pub data Executes (w : Text) (ws : List Text) : Text → List Text → Type 0 where
  script :
      (stem : Text)
      → w ≡ stem ++ codes ".sh"
      → Executes w ws (codes "/bin/bash") (codes "/bin/bash" ∷ w ∷ ws)
  plain : ((stem : Text) → w ≢ stem ++ codes ".sh") → Executes w ws w (w ∷ ws)

drop-append {ℓ} : {A : Type ℓ} (xs ys : List A) → drop (length xs) (xs ++ ys) ≡ ys
drop-append [] ys = refl
drop-append (x ∷ xs) ys = drop-append xs ys

is_script-suffix : (stem : Text) → is_script (stem ++ codes ".sh") ≡ true
unfolding is_script
is_script-suffix stem =
    let e : length (stem ++ codes ".sh") - 3 ≡ length stem =
      omega (arith, length-append stem (codes ".sh")) in
    (str_eq_iff _ (codes ".sh")).1 (rw e (drop-append stem (codes ".sh")))

is_script-stem : (w : Text) → is_script w ≡ true → w ≡ take (length w - 3) w ++ codes ".sh"
unfolding is_script
is_script-stem w h =
    let e = (str_eq_iff (drop (length w - 3) w) (codes ".sh")).0 h in
    sym (take-append-drop (length w - 3) w) ∙ rw e

-- `prepare` once its first word and its tokens are known.
prepared :
    (line w : Text) (ws : List Text) (b : Bool)
    → command_word line ≡ w
    → tokens is_delimiter line ≡ w ∷ ws
    → is_script w ≡ b
    → prepare line ≡ (
        if ltb 9 (length (if b then codes "/bin/bash" ∷ w ∷ ws else w ∷ ws))
        then none
        else some
            (if b then codes "/bin/bash" else w, if b then codes "/bin/bash" ∷ w ∷ ws else w ∷ ws))
unfolding prepare
prepared line w ws b e f g = rw (e, f, g)

-- A line of words with one blank between each two, for which the ten pointers are enough.
pub prepare-join :
    (w : Text) (ws : List Text) (program : Text) (argv : List Text)
    → AreWords is_delimiter (w ∷ ws)
    → Executes w ws program argv
    → length argv ≤ 9
    → prepare (join 32 (w ∷ ws)) ≡ some (program, argv)
unfolding command_word
prepare-join w ws program argv words (script stem e) few =
    prepared (join 32 (w ∷ ws)) w ws true (after_strtok-join is_delimiter 32 w ws words.0 refl)
      (tokens-join is_delimiter 32 (w ∷ ws) refl words) (rw e (is_script-suffix stem))
    ∙ ground arith
prepare-join w ws program argv words (plain other) few =
    prepared (join 32 (w ∷ ws)) w ws false (after_strtok-join is_delimiter 32 w ws words.0 refl)
      (tokens-join is_delimiter 32 (w ∷ ws) refl words)
      (elim (Bool-cases (is_script w)) [
        | inl h ↦ absurd (other _ (is_script-stem w h))
        | inr h ↦ h
      ])
    ∙ ground arith
