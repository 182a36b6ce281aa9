-- ===== src/Encrypt/Ends.antt =====
-- Which pipes the children of EXAMS/encrypted_2023/server.c get.
use pso_workspace.Base.{
  dec_lt, ℕ, zero, suc, ◌+◌, ◌*◌, ◌-◌, ◌<◌, ◌≤◌, ◌≡◌, ◌≢◌, refl, ◌∙◌, none, some, arith, ◌/◌, ◌%◌,
  ap, sym,
}
use pso_workspace.Encrypt.Pipes.{
  Pip, main_index, child_index, open_pipe, open_pipes, fd_at, init_pip, own_pip,
}

module _ (pipe_end : ℕ → ℕ → ℕ) where
  open_pipes-below :
      (left i : ℕ) (fd : ℕ → ℕ) (k : ℕ) → k < i * 4 → open_pipes pipe_end left i fd k ≡ fd k
  unfolding open_pipes
  open_pipes-below zero i fd k h = refl
  open_pipes-below (suc left) i fd k h =
      ground (
        arith,
        open_pipes-below left (i + 1) (open_pipe pipe_end i 1 (open_pipe pipe_end i 0 fd)) k,
      )

  open_pipe-cells :
      (i : ℕ) (fd : ℕ → ℕ) (pipe head : ℕ)
      → pipe < 2
      → head < 2
      → open_pipe pipe_end i 1 (open_pipe pipe_end i 0 fd) (main_index i pipe head)
        ≡ pipe_end (i * 2 + pipe) head
  open_pipe-cells i fd zero zero c d = ground arith
  open_pipe-cells i fd zero (suc zero) c d = ground arith
  open_pipe-cells i fd zero (suc (suc head)) c d = absurd (omega arith)
  open_pipe-cells i fd (suc zero) zero c d = ground arith
  open_pipe-cells i fd (suc zero) (suc zero) c d = ground arith
  open_pipe-cells i fd (suc zero) (suc (suc head)) c d = absurd (omega arith)
  open_pipe-cells i fd (suc (suc pipe)) head c d = absurd (omega arith)

  -- Every end stands where `main` looks for it.
  open_pipes_lem :
      (left i : ℕ) (fd : ℕ → ℕ) (j pipe head : ℕ)
      → i ≤ j
      → j < i + left
      → pipe < 2
      → head < 2
      → open_pipes pipe_end left i fd (main_index j pipe head) ≡ pipe_end (j * 2 + pipe) head
  unfolding open_pipes
  open_pipes_lem zero i fd j pipe head a b c d = absurd (omega arith)
  open_pipes_lem (suc left) i fd j pipe head a b c d = elim (dec_lt i j) [
    | yes later ↦ open_pipes_lem left (i + 1) _ j pipe head (omega arith) (omega arith) c d
    | no now ↦
        let e : i ≡ j = omega arith in
        open_pipes-below left (i + 1) _ (main_index j pipe head) (omega arith)
        ∙ rw e (open_pipe-cells j fd pipe head c d)
  ]

-- With at most two children each child gets its own pipes.
init_pip-own :
    (fd : ℕ → ℕ) (nr_proc i : ℕ)
    → nr_proc ≤ 2
    → i < nr_proc
    → init_pip fd nr_proc i ≡ some (own_pip fd i)
unfolding init_pip fd_at
init_pip-own fd zero i h l = absurd (omega arith)
init_pip-own fd (suc zero) zero h l = refl
init_pip-own fd (suc zero) (suc i) h l = absurd (omega arith)
init_pip-own fd (suc (suc zero)) zero h l = refl
init_pip-own fd (suc (suc zero)) (suc zero) h l = refl
init_pip-own fd (suc (suc zero)) (suc (suc i)) h l = absurd (omega arith)
init_pip-own fd (suc (suc (suc n))) i h l = absurd (omega arith)

-- With more children the last one reads outside of the array.
init_pip-last : (fd : ℕ → ℕ) (nr_proc : ℕ) → 3 ≤ nr_proc → init_pip fd nr_proc (nr_proc - 1) ≡ none
unfolding init_pip fd_at
init_pip-last fd nr_proc h =
    let far : nr_proc * 4 ≤ child_index nr_proc (nr_proc - 1) 0 0 = grind arith in ground arith

init_pip-first :
    (fd : ℕ → ℕ) (nr_proc i : ℕ) (p : Pip)
    → init_pip fd nr_proc i ≡ some p
    → (child_index nr_proc i 0 0 < nr_proc * 4) × (fd (child_index nr_proc i 0 0) ≡ p.read_from)
unfolding init_pip fd_at
init_pip-first fd nr_proc i p e = ground arith

init_pip-other :
    (fd : ℕ → ℕ) (nr_proc i : ℕ)
    → ((j k : ℕ) → j < nr_proc * 4 → k < nr_proc * 4 → fd j ≡ fd k → j ≡ k)
    → 3 ≤ nr_proc
    → 1 ≤ i
    → i < nr_proc
    → init_pip fd nr_proc i ≢ some (own_pip fd i)
init_pip-other fd nr_proc i distinct h a l e =
    let (inside, same) = init_pip-first fd nr_proc i (own_pip fd i) e in
    let equal = distinct (child_index nr_proc i 0 0) (main_index i 0 0) inside (omega arith) same in
    let far : i * 6 ≤ i * (nr_proc * 2) = grind arith in omega arith

module _ (pipe_end : ℕ → ℕ → ℕ)
    (pipe_ends_differ : (c d h k : ℕ)
      → h < 2
      → k < 2
      → pipe_end c h ≡ pipe_end d k
      → (c ≡ d) × (h ≡ k))
    (fd : ℕ → ℕ) (nr_proc : ℕ) where
  -- `pipe_fd` once all pipes are open.
  abbrev pub opened : ℕ → ℕ
  opened = open_pipes pipe_end nr_proc 0 fd

  opened_lem : (k : ℕ) → k < nr_proc * 4 → opened k ≡ pipe_end (k / 2) (k % 2)
  opened_lem k h =
      let e : main_index (k / 4) (k / 2 % 2) (k % 2) ≡ k = omega arith in
      let c : k / 4 * 2 + k / 2 % 2 ≡ k / 2 = omega arith in
      ap opened (sym e)
      ∙ open_pipes_lem pipe_end nr_proc 0 fd (k / 4) (k / 2 % 2) (k % 2) (omega arith) (omega arith)
          (omega arith) (omega arith)
      ∙ ap (λ (call : ℕ). pipe_end call (k % 2)) c

  opened_differ : (j k : ℕ) → j < nr_proc * 4 → k < nr_proc * 4 → opened j ≡ opened k → j ≡ k
  opened_differ j k a b e =
      let (calls, heads) =
        pipe_ends_differ (j / 2) (k / 2) (j % 2) (k % 2) (omega arith) (omega arith)
          (sym (opened_lem j a) ∙ e ∙ opened_lem k b) in
      omega arith

  -- Where the calls of pipe give different ends: with one or two children each child gets the ends of
  -- the two pipes that were opened for it; with more, each but the first gets others, or reads outside
  -- of the array, as the last one does.
  pub child_pipes :
      (i : ℕ)
      → i < nr_proc
      → (nr_proc ≤ 2
          → init_pip opened nr_proc i
            ≡ some (record {
              read_from = pipe_end (i * 2 + 0) 0;
              read_other = pipe_end (i * 2 + 0) 1;
              write_other = pipe_end (i * 2 + 1) 0;
              write_to = pipe_end (i * 2 + 1) 1;
            }))
        × (3 ≤ nr_proc → 1 ≤ i → init_pip opened nr_proc i ≢ some (own_pip opened i))
        × (3 ≤ nr_proc → init_pip opened nr_proc (nr_proc - 1) ≡ none)
  child_pipes i h =
      let own = λ (pipe head : ℕ) (p : pipe < 2) (q : head < 2).
        open_pipes_lem pipe_end nr_proc 0 fd i pipe head (omega arith) (omega arith) p q in
      (
        λ few.
            init_pip-own opened nr_proc i few h
            ∙ rw
                (
                  own 0 0 (omega arith) (omega arith),
                  own 0 1 (omega arith) (omega arith),
                  own 1 0 (omega arith) (omega arith),
                  own 1 1 (omega arith) (omega arith),
                )
                refl,
        λ many later. init_pip-other opened nr_proc i opened_differ many later h,
        λ many. init_pip-last opened nr_proc many,
      )
