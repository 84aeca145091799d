-- ===== src/Domain/Lifecycle/Endings.antt =====
-- Edits, completions and cancellations leave a consistent task consistent; and so does every
-- operation on one task.
use copilot_mempalace.Prelude.{
  ℕ, ◌≡◌, String, false, some, List, arith, ◌==◌, refl, eq_of_==, subst, sym,
}
use copilot_mempalace.Prelude.Dict
use copilot_mempalace.Model.{Result, ok, ◌>>=◌, ◌>>◌}
use copilot_mempalace.Model.Ensures.{Ensures, Ensures-bind, Ensures-ok, Ensures-require, Ensures-if}
use copilot_mempalace.Domain.Types.{Kind, Role, status_eq, in_progress}
use copilot_mempalace.Domain.Records.{Task, State}
use copilot_mempalace.Domain.Commands.{
  PolicyOverrides, Update, Transition, TransitionTarget, CompletionInput, TaskOperation, Note,
}
use copilot_mempalace.Domain.Inputs.{check_task_input}
use copilot_mempalace.Domain.Attempts.{owner_or_supervisor, with_admin}
use copilot_mempalace.Domain.Attempts.Authority.{live-IsLive}
use copilot_mempalace.Domain.Completion.{
  complete, complete_kind, complete_attempt, complete_epic, closed_task, is_terminal,
}
use copilot_mempalace.Domain.Edits.{
  update, patched, transition, by_target, close, cancel, cancel_active, cancel_idle, note,
}
use copilot_mempalace.Domain.Execute.{Execution, apply_operation}
use copilot_mempalace.Domain.Lifecycle.{IsConsistent, Stores, Stores-save}
use copilot_mempalace.Domain.Lifecycle.Steps.{
  finished-IsConsistent, closed-IsConsistent, withdrawn-IsConsistent, idle_opened,
}
use copilot_mempalace.Domain.Lifecycle.Operations.{
  Keeps, Rewrites, saved-Keeps, revoke-Rewrites, claim-Keeps, renew-Keeps, checkpoint-Keeps,
  expire-Keeps, release-Keeps,
}
use copilot_mempalace.Domain.Lifecycle.Settling.{attempt_report-Keeps, recover-Keeps}

input-Rewrites :
    (state : State) (t : Task) (overrides : PolicyOverrides)
    → IsConsistent t
    → Ensures (Rewrites t) (check_task_input state t overrides)
unfolding check_task_input
input-Rewrites state t overrides c = Ensures-bind _ _ λ _ _. Ensures-bind _ _ λ _ _.
    Ensures-bind _ _ λ _ _. Ensures-bind _ _ λ _ _. Ensures-bind _ _ λ _ _. Ensures-bind _ _ λ _ _.
      Ensures-bind _ _ λ _ _. Ensures-bind _ _ λ _ _. Ensures-require _ _ _ λ _.
        Ensures-bind _ _ λ config _. Ensures-bind _ _ λ p _.
          Ensures-bind _ _
            λ _ _. Ensures-ok _ (record { same_id = refl; consistent = ground arith })

update-Keeps :
    (state : State) (t : Task) (command : Update) (actor : String) (at : ℕ)
    → IsConsistent t
    → Keeps t (update state t command actor at)
unfolding update patched
update-Keeps state t command actor at c = Ensures-require _ _ _ λ _. Ensures-require _ _ _ λ _.
    Ensures-bind _ _ λ _ _. Ensures-bind _ _ λ _ _. Ensures-bind _ _ λ t' e.
      let w = (input-Rewrites state (patched t command.patch) _ (ground arith)).at t' e in
      saved-Keeps state t t' (record { same_id = w.same_id; consistent = w.consistent })

-- What the branches of a completion leave: a task of the same id that is consistent once closed.
record Closes (t : Task) (summary : String) (evidence : List String) (at : ℕ) (actor : String)
    (after : State × Task) : Type 0 where
  same_id : after.1.id ≡ t.id
  consistent : IsConsistent (closed_task after.1 summary evidence at actor)

attempt-Closes :
    (state : State) (t : Task) (input : CompletionInput) (actor summary : String)
    (evidence : List String) (at : ℕ)
    → IsConsistent t
    → Ensures (Closes t summary evidence at actor) (complete_attempt state t input actor at)
unfolding complete_attempt closed_task
attempt-Closes state t input actor summary evidence at c = Ensures-bind _ _ λ _ _.
    Ensures-bind _ _ λ _ _. Ensures-bind _ _ λ attempt alive. Ensures-require _ _ _ λ _.
      Ensures-require _ _ _ λ _. Ensures-bind _ _ λ _ _. Ensures-bind _ _ λ released _.
        let l = (live-IsLive state t input.tokens actor at owner_or_supervisor).at attempt alive in
        Ensures-ok _ (record {
          same_id = refl;
          consistent = finished-IsConsistent t attempt _ _ l.active l.of_task c;
        })

epic-Closes :
    (state : State) (t : Task) (actor summary : String) (evidence : List String) (at : ℕ)
    → IsConsistent t
    → Ensures (Closes t summary evidence at actor) (complete_epic state t actor at)
unfolding complete_epic closed_task
epic-Closes state t actor summary evidence at c = Ensures-bind _ _ λ _ _. Ensures-bind _ _ λ _ _.
    Ensures-require _ _ _ λ s. Ensures-bind _ _ λ _ _. Ensures-require _ _ _ λ _.
      Ensures-ok _ (record { same_id = refl; consistent = closed-IsConsistent t _ (eq_of_== s) c })

kind-Closes :
    (kind : Kind) (state : State) (t : Task) (input : CompletionInput) (actor summary : String)
    (evidence : List String) (at : ℕ)
    → IsConsistent t
    → Ensures (Closes t summary evidence at actor) (complete_kind kind state t input actor at)
unfolding complete_kind
kind-Closes Kind.task state t input actor summary evidence at c =
    attempt-Closes state t input actor summary evidence at c
kind-Closes Kind.epic state t input actor summary evidence at c =
    epic-Closes state t actor summary evidence at c

pub complete-Stores :
    (state : State) (t : Task) (input : CompletionInput) (actor : String) (at : ℕ)
    → IsConsistent t
    → Ensures (λ after. Stores IsConsistent t.id after.0) (complete state t input actor at)
unfolding complete
complete-Stores state t input actor at c = Ensures-bind _ _ λ summary _.
    Ensures-bind _ _ λ evidence _. Ensures-bind _ _ λ (state', t') e.
      let w = (kind-Closes t.kind state t input actor summary evidence at c).at (state', t') e in
      Ensures-ok _ (
        (saved-Keeps state' t _ (record { same_id = w.same_id; consistent = w.consistent })).at _
          refl)

close-Keeps :
    (state : State) (t : Task) (command : Transition) (actor : String) (at : ℕ)
    → IsConsistent t
    → Keeps t (close state t command actor at)
unfolding close
close-Keeps state t command actor at c =
    Ensures-bind _ _
      λ (state', t') e. Ensures-ok _ ((complete-Stores state t _ actor at c).at (state', t') e)

cancel_active-Keeps :
    (state : State) (t : Task) (command : Transition) (reason actor : String) (at : ℕ)
    → IsConsistent t
    → Keeps t (cancel_active state t command reason actor at)
unfolding cancel_active
cancel_active-Keeps state t command reason actor at c = Ensures-bind _ _ λ attempt alive.
    Ensures-bind _ _ λ t' e. saved-Keeps state t t' (
      (revoke-Rewrites state t at _
          ((live-IsLive state t command.tokens actor at with_admin).at attempt alive).active c).at
        t' e)

cancel_idle-Keeps :
    (state : State) (t : Task) (reason actor : String)
    → is_terminal t.status ≡ false
    → (t.status == in_progress) ≡ false
    → IsConsistent t
    → Keeps t (cancel_idle state t reason actor)
unfolding cancel_idle
cancel_idle-Keeps state t reason actor terminal idle c = Ensures-bind _ _ λ _ _.
    Ensures-require _ _ _ λ settled. Ensures-bind _ _ λ _ _. Ensures-ok _ (
      Stores-save IsConsistent state _
        (withdrawn-IsConsistent t reason (idle_opened t terminal idle settled c) c))

cancel-Keeps :
    (state : State) (t : Task) (command : Transition) (actor : String) (at : ℕ)
    → IsConsistent t
    → Keeps t (cancel state t command actor at)
unfolding cancel
cancel-Keeps state t command actor at c = Ensures-bind _ _ λ reason _.
    Ensures-require _ _ _ λ going.
      Ensures-if (t.status == in_progress) _ _
        (λ _. cancel_active-Keeps state t command reason actor at c)
        (λ idle. cancel_idle-Keeps state t reason actor (ground arith) idle c)

by_target-Keeps :
    (target : TransitionTarget) (state : State) (t : Task) (command : Transition) (actor : String)
    (at : ℕ)
    → IsConsistent t
    → Keeps t (by_target target state t command actor at)
unfolding by_target
by_target-Keeps TransitionTarget.closed state t command actor at c =
    close-Keeps state t command actor at c
by_target-Keeps TransitionTarget.cancelled state t command actor at c =
    cancel-Keeps state t command actor at c

transition-Keeps :
    (state : State) (t : Task) (command : Transition) (actor : String) (at : ℕ)
    → IsConsistent t
    → Keeps t (transition state t command actor at)
unfolding transition
transition-Keeps state t command actor at c =
    Ensures-require _ _ _ λ _. by_target-Keeps command.target state t command actor at c

-- The state of an execution stores a consistent task.
abbrev pub Lasting : Task → Execution → Type 0
Lasting t e = Stores IsConsistent t.id e.state

done-Lasting :
    (t : Task) (r : Result State) (make : State → Execution)
    → ((s : State) → (make s).state ≡ s)
    → Keeps t r
    → Ensures (Lasting t) (do s ← r; ok (make s))
done-Lasting t r make same k =
    Ensures-bind _ _
      λ s e. Ensures-ok (make s) (subst (Stores IsConsistent t.id) (sym (same s)) (k.at s e))

note-Keeps :
    (state : State) (t : Task) (command : Note) (actor : String) (role : Role) (at : ℕ)
    → IsConsistent t
    → Dict.get t.id state.tasks ≡ some t
    → Keeps t (do note state t command actor role at; ok state)
note-Keeps state t command actor role at c e =
    Ensures-bind _ _ λ _ _. Ensures-ok state (record { stored = t; found = e; meets = c })

operation-Lasting :
    (uuid5 : String → String → String) (state : State) (t : Task) (op : TaskOperation)
    (command_id actor : String) (role : Role) (at : ℕ)
    → IsConsistent t
    → Dict.get t.id state.tasks ≡ some t
    → Ensures (Lasting t) (apply_operation uuid5 state t op command_id actor role at)
unfolding apply_operation
operation-Lasting uuid5 state t (TaskOperation.update c) command_id actor role at k e =
    done-Lasting t _ _ (λ _. refl) (update-Keeps state t c actor at k)
operation-Lasting uuid5 state t (TaskOperation.claim c) command_id actor role at k e =
    done-Lasting t _ _ (λ _. refl) (claim-Keeps uuid5 state t c command_id actor role at k)
operation-Lasting uuid5 state t (TaskOperation.renew c) command_id actor role at k e =
    done-Lasting t _ _ (λ _. refl) (renew-Keeps state t c actor at k)
operation-Lasting uuid5 state t (TaskOperation.checkpoint c) command_id actor role at k e =
    done-Lasting t _ _ (λ _. refl) (checkpoint-Keeps state t c actor at k)
operation-Lasting uuid5 state t (TaskOperation.attempt_report c) command_id actor role at k e =
    done-Lasting t _ _ (λ _. refl) (attempt_report-Keeps state t c actor role at k)
operation-Lasting uuid5 state t (TaskOperation.expire c) command_id actor role at k e =
    done-Lasting t _ _ (λ _. refl) (expire-Keeps state t c role at k)
operation-Lasting uuid5 state t (TaskOperation.release c) command_id actor role at k e =
    done-Lasting t _ _ (λ _. refl) (release-Keeps state t c actor at k)
operation-Lasting uuid5 state t (TaskOperation.recover c) command_id actor role at k e =
    done-Lasting t _ _ (λ _. refl) (recover-Keeps state t c actor role at k)
operation-Lasting uuid5 state t (TaskOperation.transition c) command_id actor role at k e =
    done-Lasting t _ _ (λ _. refl) (transition-Keeps state t c actor at k)
operation-Lasting uuid5 state t (TaskOperation.note c) command_id actor role at k e =
    done-Lasting t _ _ (λ _. refl) (note-Keeps state t c actor role at k e)

-- Whatever operation is executed on a task that is stored and consistent, if it succeeds then the
-- new state stores a consistent task under the same id.
pub apply_operation-IsConsistent :
    (uuid5 : String → String → String) (state : State) (t : Task) (op : TaskOperation)
    (command_id actor : String) (role : Role) (at : ℕ) (e : Execution)
    → IsConsistent t
    → Dict.get t.id state.tasks ≡ some t
    → apply_operation uuid5 state t op command_id actor role at ≡ ok e
    → Stores IsConsistent t.id e.state
apply_operation-IsConsistent uuid5 state t op command_id actor role at e c stored =
    (operation-Lasting uuid5 state t op command_id actor role at c stored).at e
