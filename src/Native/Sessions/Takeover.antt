-- ===== src/Native/Sessions/Takeover.antt =====
-- What a resume changes: which session owns the goal, and which attempts it may act on.
use copilot_mempalace.Prelude.{
  ℕ, ◌+◌, ◌≡◌, String, true, false, not, ◌&&◌, Option, none, some, arith, refl, eq_of_==, subst,
  ◌==◌, string_eq, nat_eq, option_eq, and_true, ==_self, ap,
}
use copilot_mempalace.Prelude.Dict
use copilot_mempalace.Prelude.Dict.{get-put_self, get}
use copilot_mempalace.Model.{Code, ok, err, ◌>>=◌, require, or_fail, text, not_owner}
use copilot_mempalace.Model.Ensures.{
  Ensures, Ensures-bind, Ensures-ok, Ensures-require, ok-injective,
}
use copilot_mempalace.Domain.Types.{Kind, kind_eq, Status, status_eq}
use copilot_mempalace.Domain.Records.{Task, State, Native}
use copilot_mempalace.Domain.Checks.{any_goal_of, goal_of, task_of, is_none}
use copilot_mempalace.Domain.Inputs.{save}
use copilot_mempalace.Native.Sessions.{GoalScope, Resume, resume, scoped_goal, owned_goal}

-- The stored goal passes every test of `scoped_goal`.
record IsScoped (state : State) (scope : GoalScope) (goal : Task) : Type 0 where
  named : text scope.goal_id 40 ≡ ok tt
  found : Dict.get scope.goal_id state.tasks ≡ some goal
  root :
      (goal.kind == Kind.epic
        && goal.goal_id == some scope.goal_id
        && not (is_none goal.goal_policy))
      ≡ true
  open_goal : (not goal.sealed && goal.status == Status.opened) ≡ true
  in_scope : (not (is_none goal.native) && goal.project == scope.project) ≡ true

some_of_or_fail : {A : Type 0} (o : Option A) (c : Code) (a : A) → or_fail o c ≡ ok a → o ≡ some a
unfolding or_fail
some_of_or_fail none c a e = cc
some_of_or_fail (some b) c a e = ap some (ok-injective e)

-- What each look-up before `scoped_goal` has found.
task_of-Ensures :
    (state : State) (id : String)
    → Ensures (λ t. (text id 40 ≡ ok tt) × (Dict.get id state.tasks ≡ some t)) (task_of state id)
unfolding task_of
task_of-Ensures state id =
    Ensures-bind _ _ λ u e. record { at = λ t f. (e, some_of_or_fail _ _ t f) }

any_goal-Ensures :
    (state : State) (id : String)
    → Ensures
        (λ goal.
          (text id 40 ≡ ok tt)
          × (Dict.get id state.tasks ≡ some goal)
          × ((goal.kind == Kind.epic && goal.goal_id == some id && not (is_none goal.goal_policy))
              ≡ true))
        (any_goal_of state id)
unfolding any_goal_of
any_goal-Ensures state id = Ensures-bind _ _ λ goal g. Ensures-require _ _ _ λ root.
    let (named, found) = (task_of-Ensures state id).at goal g in Ensures-ok _ (named, found, root)

goal_of-Ensures :
    (state : State) (scope : GoalScope)
    → Ensures
        (λ goal.
          ((not (is_none goal.native) && goal.project == scope.project) ≡ true)
          → IsScoped state scope goal)
        (goal_of state scope.goal_id)
unfolding goal_of
goal_of-Ensures state scope = Ensures-bind _ _ λ goal g. Ensures-require _ _ _ λ open_goal.
    let (named, found, root) = (any_goal-Ensures state scope.goal_id).at goal g in
    Ensures-ok _ λ in_scope. record {
      named = named;
      found = found;
      root = root;
      open_goal = open_goal;
      in_scope = in_scope;
    }

scoped_goal-IsScoped :
    (state : State) (scope : GoalScope) → Ensures (IsScoped state scope) (scoped_goal state scope)
unfolding scoped_goal
scoped_goal-IsScoped state scope = Ensures-bind _ _ λ goal g.
    Ensures-require _ _ _
      λ in_scope. Ensures-ok _ ((goal_of-Ensures state scope).at goal g in_scope)

scoped_again :
    (state : State) (scope : GoalScope) (goal : Task)
    → IsScoped state scope goal
    → scoped_goal state scope ≡ ok goal
unfolding scoped_goal goal_of any_goal_of task_of ◌>>=◌ require or_fail
scoped_again state scope goal s = rw (s.named, s.found, s.root, s.open_goal, s.in_scope) refl

-- The goal that a resume writes.
abbrev pub taken_over : Task → Native → Resume → String → ℕ → Task
taken_over goal n c session_id at = record goal {
  native = some (record n {
    session_id = session_id;
    session_generation = n.session_generation + 1;
    transfer = some (record {
      from_session_id = c.expected_session_id;
      reason = c.reason;
      observations = c.observed;
      at = at;
    });
  });
}

-- What a resume by `session_id` leaves of a goal that had the native fields `before`: the session
-- expected owned it, the new session owns it under the next generation, and the session before is
-- refused.
pub record IsTakenOver (before : Native) (c : Resume) (session_id : String) (state' : State)
    : Type 0 where
  pub held : before.session_id ≡ c.expected_session_id
  pub goal : Task
  pub owned :
      owned_goal state' c.scope session_id
      ≡ ok (
        goal,
        record { session_id = session_id; session_generation = before.session_generation + 1 },
      )
  pub refused : owned_goal state' c.scope c.expected_session_id ≡ err not_owner

IsScoped-taken_over :
    (state : State) (goal : Task) (n : Native) (c : Resume) (session_id : String) (at : ℕ)
    → goal.id ≡ c.scope.goal_id
    → IsScoped state c.scope goal
    → IsScoped
        (save state (taken_over goal n c session_id at))
        c.scope
        (taken_over goal n c session_id at)
unfolding save
IsScoped-taken_over state goal n c session_id at keyed s = record {
  named = s.named;
  found =
      subst
        (λ id.
          Dict.get id (Dict.put goal.id (taken_over goal n c session_id at) state.tasks)
          ≡ some (taken_over goal n c session_id at))
        keyed (get-put_self goal.id (taken_over goal n c session_id at) state.tasks);
  root = s.root;
  open_goal = s.open_goal;
  in_scope = (and_true s.in_scope).1;
}

owned_by :
    (state : State) (scope : GoalScope) (goal : Task) (n : Native) (session_id : String)
    → IsScoped state scope goal
    → goal.native ≡ some n
    → n.session_id ≡ session_id
    → owned_goal state scope session_id
      ≡ ok (goal, record { session_id = session_id; session_generation = n.session_generation })
unfolding owned_goal ◌>>=◌ require or_fail
owned_by state scope goal n session_id s e same =
    rw (scoped_again state scope goal s, e, same, ==_self session_id) refl

refused_to :
    (state : State) (scope : GoalScope) (goal : Task) (n : Native) (session_id : String)
    → IsScoped state scope goal
    → goal.native ≡ some n
    → (n.session_id == session_id) ≡ false
    → owned_goal state scope session_id ≡ err not_owner
unfolding owned_goal ◌>>=◌ require or_fail
refused_to state scope goal n session_id s e other =
    rw (scoped_again state scope goal s, e, other) refl

resume-Ensures :
    (state : State) (c : Resume) (session_id : String) (at : ℕ) (root : Task) (before : Native)
    → Dict.get c.scope.goal_id state.tasks ≡ some root
    → root.id ≡ c.scope.goal_id
    → root.native ≡ some before
    → Ensures (IsTakenOver before c session_id) (resume state c session_id at)
unfolding resume save
resume-Ensures state c session_id at root before stored keyed owned = Ensures-bind _ _ λ goal g.
    Ensures-bind _ _ λ _ _. Ensures-bind _ _ λ n e. Ensures-require _ _ _ λ expected_session.
      Ensures-require _ _ _ λ other_session. Ensures-bind _ _ λ _ _. Ensures-bind _ _ λ _ _.
        let s = (scoped_goal-IsScoped state c.scope).at goal g in
        let same : goal.id ≡ c.scope.goal_id = cc (s.found, stored, keyed) in
        let n_before : n ≡ before = cc (s.found, stored, owned, some_of_or_fail _ _ n e) in
        let after = IsScoped-taken_over state goal n c session_id at same s in
        Ensures-ok _ (
          subst (λ m. IsTakenOver m c session_id (save state (taken_over goal n c session_id at)))
            n_before
            (record {
              held = eq_of_== expected_session;
              goal = taken_over goal n c session_id at;
              owned = owned_by _ c.scope _ _ session_id after refl refl;
              refused = refused_to _ c.scope _ _ c.expected_session_id after refl (ground arith);
            }))

-- A goal that is stored under its own id and resumed passes from the session that held it, which is
-- the expected one, to another: the new one owns it, under the generation one higher than the
-- goal's before, and the session before is refused as no owner.
pub resume-IsTakenOver :
    (state : State) (c : Resume) (session_id : String) (at : ℕ) (root : Task) (before : Native)
    (state' : State)
    → Dict.get c.scope.goal_id state.tasks ≡ some root
    → root.id ≡ c.scope.goal_id
    → root.native ≡ some before
    → resume state c session_id at ≡ ok state'
    → IsTakenOver before c session_id state'
resume-IsTakenOver state c session_id at root before state' stored keyed owned =
    (resume-Ensures state c session_id at root before stored keyed owned).at state'
