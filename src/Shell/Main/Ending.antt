-- ===== src/Shell/Main/Ending.antt =====
-- myshell.c: which lines end the shell, by the calls that it makes.
use decs.Base.{ap, ℕ, refl, List, ◌++◌, ◌∷◌, [], ◌≡◌, true, ◌↔◌, ◌⊎◌, inl, inr, Bool-cases, arith}
use decs.Shell.Execute.{Call, Run, exit}
use decs.Shell.Execute.Pipe.{PipedRun}
use decs.Shell.Execute.Command.{Outcome, execute_command, undefined, illegal, ran, ran_piped}
use decs.Shell.Execute.{Host}
use decs.Shell.Commands.{Separated, one, two}
use decs.Shell.Main.{is_exit, calls_exit, outcome_exits, ends_shell, run_separated}

-- There is a call of `exit` among the calls.
abbrev pub Exits : List Call → Type 0
Exits cs = (n : ℕ) × (front back : List Call) × (cs ≡ front ++ exit n ∷ back)

-- A command that the shell runs itself ends it by a call of `exit`; nothing is known of the shell behind
-- undefined behaviour.
abbrev pub EndsCommand : Outcome → Type 0
EndsCommand o =
    (o ≡ undefined)
    ⊎ ((r : Run) × (o ≡ ran r) × Exits r.shell)
    ⊎ ((r : PipedRun) × (o ≡ ran_piped r) × Exits r.shell)

-- Of two commands only the shell's own calls count: the commands run in children.
abbrev pub Ends : Host → Separated → Type 0
Ends h (one command) = EndsCommand (execute_command h command)
Ends h (two command1 command2) = Exits (run_separated h (two command1 command2)).shell

is_exit-exit : (c : Call) → is_exit c ≡ true → (n : ℕ) × (c ≡ exit n)
unfolding is_exit
is_exit-exit (exit n) e = (n, refl)
is_exit-exit c e = absurd (ground arith)

calls_exit-Exits : (cs : List Call) → calls_exit cs ≡ true → Exits cs
unfolding calls_exit
calls_exit-Exits [] e = absurd (ground arith)
calls_exit-Exits (c ∷ cs) e = elim (Bool-cases (is_exit c)) [
  | inl here ↦ let (n, same) = is_exit-exit c here in (n, [], cs, ap (λ x. x ∷ cs) same)
  | inr later ↦
      let (n, front, back, same) = calls_exit-Exits cs (ground arith) in
      (n, c ∷ front, back, ap (λ x. c ∷ x) same)
]

Exits-calls_exit : (n : ℕ) (front back : List Call) → calls_exit (front ++ exit n ∷ back) ≡ true
unfolding calls_exit is_exit
Exits-calls_exit n [] back = refl
Exits-calls_exit n (c ∷ front) back = ground (arith, Exits-calls_exit n front back)

calls_exit_iff : (cs : List Call) → (calls_exit cs ≡ true) ↔ Exits cs
calls_exit_iff cs =
    (calls_exit-Exits cs, λ (n, front, back, same). rw same (Exits-calls_exit n front back))

outcome_exits_iff : (o : Outcome) → (outcome_exits o ≡ true) ↔ EndsCommand o
unfolding outcome_exits
outcome_exits_iff undefined = (λ e. inl refl, λ x. refl)
outcome_exits_iff illegal = (
  λ e. absurd (ground arith),
  λ x. elim x [
    | inl e ↦ absurd (ground arith)
    | inr (inl (r, e, q)) ↦ absurd (ground arith)
    | inr (inr (r, e, q)) ↦ absurd (ground arith)
  ],
)
outcome_exits_iff (ran r) = (
  λ e. inr (inl (r, refl, calls_exit-Exits r.shell e)),
  λ x. elim x [
    | inl e ↦ absurd (ground arith)
    | inr (inl (q, e, x)) ↦
        let same : q.shell ≡ r.shell = cc in (calls_exit_iff r.shell).1 (rw same at x)
    | inr (inr (q, e, x)) ↦ absurd (ground arith)
  ],
)
outcome_exits_iff (ran_piped r) = (
  λ e. inr (inr (r, refl, calls_exit-Exits r.shell e)),
  λ x. elim x [
    | inl e ↦ absurd (ground arith)
    | inr (inl (q, e, x)) ↦ absurd (ground arith)
    | inr (inr (q, e, x)) ↦
        let same : q.shell ≡ r.shell = cc in (calls_exit_iff r.shell).1 (rw same at x)
  ],
)

-- The test is exact: a line passes it if and only if it ends the shell.
pub ends_shell_iff : (h : Host) (s : Separated) → (ends_shell h s ≡ true) ↔ Ends h s
unfolding ends_shell
ends_shell_iff h (one command) = outcome_exits_iff (execute_command h command)
ends_shell_iff h (two command1 command2) =
    calls_exit_iff (run_separated h (two command1 command2)).shell
