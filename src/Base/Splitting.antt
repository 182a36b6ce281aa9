-- ===== src/Base/Splitting.antt =====
-- What strtok finds in a text that is put together from words.
use Prim.Native.Nat.{ℕ}
use mathlib.Core.Path.{◌≡◌, refl}
use mathlib.Core.Bool.{Bool, true, false}
use mathlib.Core.List.{List, [], ◌∷◌, ◌++◌}
use pso_workspace.Base.Text.{Text, split, tokens, token_run, after_strtok}

-- No character of the text passes the test, and each does.
abbrev pub Lacks : (ℕ → Bool) → Text → Type 0
Lacks p [] = Unit
Lacks p (c ∷ s) = (p c ≡ false) × Lacks p s

abbrev pub Fills : (ℕ → Bool) → Text → Type 0
Fills p [] = Unit
Fills p (c ∷ s) = (p c ≡ true) × Fills p s

abbrev pub IsWord : (ℕ → Bool) → Text → Type 0
IsWord p [] = ⊥
IsWord p (c ∷ s) = Lacks p (c ∷ s)

abbrev pub AreWords : (ℕ → Bool) → List Text → Type 0
AreWords p [] = Unit
AreWords p (w ∷ ws) = IsWord p w × AreWords p ws

-- The words with one delimiter between each two.
abbrev pub join : ℕ → List Text → Text
join d [] = []
join d (w ∷ []) = w
join d (w ∷ v ∷ ws) = w ++ d ∷ join d (v ∷ ws)

module _ (p : ℕ → Bool) where
  split-append :
      (w : Text) (d : ℕ) (s : Text)
      → Lacks p w
      → p d ≡ true
      → split p (w ++ d ∷ s) ≡ (w, tokens p s)
  unfolding split tokens
  split-append [] d s h e = rw e
  split-append (c ∷ w) d s h e = rw (split-append w d s h.1 e, h.0)

  split-Lacks : (w : Text) → Lacks p w → split p w ≡ (w, [])
  unfolding split
  split-Lacks [] h = refl
  split-Lacks (c ∷ w) h = rw (split-Lacks w h.1, h.0)

  pub tokens-word : (w : Text) → IsWord p w → tokens p w ≡ w ∷ []
  unfolding tokens
  tokens-word [] h = absurd h
  tokens-word (c ∷ w) h = rw (split-Lacks (c ∷ w) h)

  pub tokens-append :
      (w : Text) (d : ℕ) (s : Text)
      → IsWord p w
      → p d ≡ true
      → tokens p (w ++ d ∷ s) ≡ w ∷ tokens p s
  unfolding tokens
  tokens-append [] d s h e = absurd h
  tokens-append (c ∷ w) d s h e = rw (split-append (c ∷ w) d s h e)

  pub tokens-join :
      (d : ℕ) (ws : List Text) → p d ≡ true → AreWords p ws → tokens p (join d ws) ≡ ws
  unfolding tokens
  tokens-join d [] e h = refl
  tokens-join d (w ∷ []) e h = tokens-word w h.0
  tokens-join d (w ∷ v ∷ ws) e h =
      rw (tokens-append w d (join d (v ∷ ws)) h.0 e, tokens-join d (v ∷ ws) e h.1)

  pub tokens-Fills : (s : Text) → Fills p s → tokens p s ≡ []
  unfolding tokens split
  tokens-Fills [] h = refl
  tokens-Fills (c ∷ s) h = rw h.0 (tokens-Fills s h.1)

  token_run-append :
      (w : Text) (d : ℕ) (s : Text) → Lacks p w → p d ≡ true → token_run p (w ++ d ∷ s) ≡ w
  unfolding token_run
  token_run-append [] d s h e = rw e
  token_run-append (c ∷ w) d s h e = rw (token_run-append w d s h.1 e, h.0)

  -- Behind the call that returned the first word, the text reads as that word.
  pub after_strtok-append :
      (w : Text) (d : ℕ) (s : Text) → IsWord p w → p d ≡ true → after_strtok p (w ++ d ∷ s) ≡ w
  unfolding after_strtok
  after_strtok-append [] d s h e = absurd h
  after_strtok-append (c ∷ w) d s h e = rw (token_run-append w d s h.1 e, h.0)

  token_run-Lacks : (w : Text) → Lacks p w → token_run p w ≡ w
  unfolding token_run
  token_run-Lacks [] h = refl
  token_run-Lacks (c ∷ w) h = rw (token_run-Lacks w h.1, h.0)

  -- The same with any number of words.
  pub after_strtok-join :
      (d : ℕ) (w : Text) (ws : List Text)
      → IsWord p w
      → p d ≡ true
      → after_strtok p (join d (w ∷ ws)) ≡ w
  unfolding after_strtok
  after_strtok-join d [] ws h e = absurd h
  after_strtok-join d (c ∷ w) [] h e = rw (token_run-Lacks w h.1, h.0)
  after_strtok-join d (c ∷ w) (v ∷ ws) h e = after_strtok-append (c ∷ w) d (join d (v ∷ ws)) h e
