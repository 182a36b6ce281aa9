-- ===== src/JobServer/Rules.antt =====
-- Invariants of the server from invariants of its handlers, for any predicate of the state.
use mathlib.Core.Option.{some-injective}
use pso_workspace.Base.{
  refl, ℕ, ◌≡◌, Bool, true, false, ◌&&◌, Option, some, List, [], ◌∷◌, Bool-cases, subst,
  if◌then◌else◌, inl, inr, Option-cases, ◌⊎◌,
}
use pso_workspace.Base.Text.{Text, codes, str_eq, cut}
use pso_workspace.Base.Machine.{
  Outcome, M, done, blocked, exited, fault, Ends, Ends-bind, bind, when, pure,
}
use pso_workspace.JobServer.State.{Server, Stream, Status, stdout, stderr, running, finished}
use pso_workspace.JobServer.Handler.{
  thread_handle, get_status, other_requests, run_request, kill_job, is_run, get_output,
  list_request, close_client,
}
use pso_workspace.JobServer.System.{Event, step, run_events, left_by, handle, is_request}

-- A handler keeps the predicate.
abbrev pub Keeps : {A : Type 0} → (Server → Type 0) → M Server A → Type 0
Keeps P m = (s : Server) → P s → Ends P (m s)

taken :
    (b : Bool) (s t : Server) (o : Option Server)
    → (if b then some s else o) ≡ some t
    → (s ≡ t) ⊎ (o ≡ some t)
taken true s t o e = inl (some-injective _ _ e)
taken false s t o e = inr e

module _ (P : Server → Type 0) where
  -- One `if (strcmp(...) == 0)` of `thread_handle`, with what follows it.
  branch :
      (b : Bool) (m : M Server (Unit {0}))
      → (b ≡ true → Keeps P m)
      → (f : Unit {0} → M Server (Unit {0})) (s : Server) → P s
      → ((t : Server) → P t → Ends P (f tt t))
      → Ends P (bind (when b m s) f)
  branch true m h f s v k = Ends-bind P (m s) f (h refl s v) λ _ t w. k t w
  branch false m h f s v k = k s v

  module _ (command : Text) (args : Option Text)
      (on_status : str_eq (codes "get_status") command ≡ true → Keeps P (get_status args))
      (on_kill : Keeps P (kill_job args))
      (on_output : (stream : Stream) → Keeps P (get_output stream args))
      (on_list : (status : Status) → Keeps P (list_request status))
      (on_close : Keeps P close_client) where
    pub other_requests-Keeps : Keeps P (other_requests command args)
    unfolding other_requests
    other_requests-Keeps s v =
        branch (str_eq (codes "get_status") command) (get_status args) on_status _ s v λ t w.
          branch (str_eq (codes "kill_job") command) (kill_job args) (λ _. on_kill) _ t w
            λ t w.
              branch (str_eq (codes "get_stdout") command) (get_output stdout args)
                (λ _. on_output stdout) _ t w
                λ t w.
                  branch (str_eq (codes "get_stderr") command) (get_output stderr args)
                    (λ _. on_output stderr) _ t w
                    λ t w.
                      branch (str_eq (codes "get_jobs") command) (list_request running)
                        (λ _. on_list running) _ t w
                        λ t w.
                          branch (str_eq (codes "istoric") command) (list_request finished)
                            (λ _. on_list finished) _ t w λ t w. on_close t w

  answered-Keeps :
      (buffer : Text) (returned : Bool)
      → Keeps P (other_requests (cut 32 buffer).0 (cut 32 buffer).1)
      → Keeps P (if returned then pure tt else other_requests (cut 32 buffer).0 (cut 32 buffer).1)
  answered-Keeps buffer true h s v = v
  answered-Keeps buffer false h s v = h s v

  pub thread_handle-Keeps :
      (buffer : Text) (forked : Option ℕ)
      → Keeps P (run_request (cut 32 buffer).1 forked)
      → Keeps P (other_requests (cut 32 buffer).0 (cut 32 buffer).1)
      → Keeps P (thread_handle buffer forked)
  unfolding thread_handle
  thread_handle-Keeps buffer forked on_run on_other s v = elim (Bool-cases (is_run buffer)) [
    | inl e ↦ rw e (
        Ends-bind P (run_request (cut 32 buffer).1 forked s) _ (on_run s v)
          (λ returned. answered-Keeps buffer returned on_other))
    | inr e ↦ rw e (answered-Keeps buffer false on_other s v)
  ]

  left_by-Ends : (m : Outcome Server (Unit {0})) (t : Server) → Ends P m → left_by m ≡ some t → P t
  left_by-Ends (done a s) t v e = subst P (some-injective _ _ e) v
  left_by-Ends (blocked s) t v e = subst P (some-injective _ _ e) v
  left_by-Ends (exited s) t v e = cc
  left_by-Ends fault t v e = cc

  module _ (on_event : (e : Event) → Keeps P (handle e)) where
    pub step-Keeps : (s t : Server) (e : Event) → P s → step s e ≡ some t → P t
    unfolding step
    step-Keeps s t e v h = elim (taken (s.stopping && is_request e) s t (left_by (handle e s)) h) [
      | inl same ↦ subst P same v
      | inr left ↦ left_by-Ends (handle e s) t (on_event e s v) left
    ]

    pub run_events-Keeps : (es : List Event) (s t : Server) → P s → run_events s es ≡ some t → P t
    unfolding run_events
    run_events-Keeps [] s t v e = subst P (some-injective _ _ e) v
    run_events-Keeps (x ∷ es) s t v e = elim (Option-cases (step s x)) [
      | inl gone ↦ cc (rw (gone, run_events) at e)
      | inr (u, went) ↦
          run_events-Keeps es u t (step-Keeps s u x v went) (rw (went, run_events) at e)
    ]
