-- ===== src/Shell/Execute/Calls.antt =====
-- myshell.c, `executeCommand`: the program that the child runs, and its standard streams.
use decs.Base.Family.{put}
use decs.Shell.Strings.{Str}
use decs.Shell.Execute.{
  Host, run_program, Call, open_file, dup2, close, exec, chdir, exit, scan, fork, print_illegal,
  print_duplication, Access, input_calls, wait_child, File, perror, read_only, output_calls, child,
  truncate, run_child, input_arguments, append_argument, read_input, make_pipe, close_indeterminate,
}
use decs.Base.Int.{ℤ, pos, negsuc, ltb_ℤ}
use decs.Base.{
  ℕ, refl, Option, List, ◌≡◌, none, ◌+◌, true, ◌∷◌, some, arith, if◌then◌else◌, [], ◌⊎◌, ◌++◌, inl,
  inr, ◌==◌, false, ◌∙◌, ap, Bool-cases, ◌&&◌, not, Bool,
}

-- What each descriptor refers to, in the child
abbrev pub Table : Type 0
Table = ℕ → Option Str

-- A program with its arguments, standard input and standard output
pub record Program : Type 0 where
  pub arguments : List Str
  pub stdin : Option Str
  pub stdout : Option Str

unfoldable pub opened : Table → ℤ → Option Str → Table
opened t (pos fd) name = put t fd name
opened t (negsuc k) name = t

unfoldable pub copied : Table → ℤ → ℕ → Table
copied t (pos fd) to = put t to (t fd)
copied t (negsuc k) to = t

unfoldable pub closed : Table → ℤ → Table
closed t (pos fd) = put t fd none
closed t (negsuc k) = t

-- The program that a list of calls runs, if one is, by what the calls do to the descriptors
unfoldable pub program : Host → Table → List Call → Option Program
unfolding opened copied closed
program h t [] = none
program h t (open_file name access ∷ cs) = program h (opened t (h.opens name access) name) cs
program h t (dup2 fd to ∷ cs) = program h (if h.duplicates fd then copied t fd to else t) cs
program h t (close fd ∷ cs) = program h (closed t fd) cs
program h t (exec args ∷ cs) =
    if h.runs args
    then some (record { arguments = args; stdin = t 0; stdout = t 1 })
    else program h t cs
program h t (scan ∷ cs) = program h t cs
program h t (read_input ∷ cs) = program h t cs
program h t (make_pipe ∷ cs) = program h t cs
program h t (close_indeterminate ∷ cs) = program h t cs
program h t (fork ∷ cs) = program h t cs
program h t (wait_child ∷ cs) = program h t cs
program h t (chdir name ∷ cs) = program h t cs
program h t (exit n ∷ cs) = none
program h t (print_illegal ∷ cs) = program h t cs
program h t (print_duplication ∷ cs) = program h t cs
program h t (perror ∷ cs) = program h t cs

-- `open` returns -1 or a descriptor beyond the three standard ones, which are open, and `dup2` of an
-- open descriptor succeeds.
pub record IsPlainHost (h : Host) : Type 0 where
  pub fresh :
      (name : Option Str) (access : Access)
      → (h.opens name access ≡ negsuc 0) ⊎ ((k : ℕ) × (h.opens name access ≡ pos (k + 3)))
  pub duplicable : (fd : ℤ) → h.duplicates fd ≡ true

-- The file, if there is one and it can be opened, and otherwise what the descriptor was before
unfoldable pub stream : Host → Access → Option Str → File → Option Str
stream h access old none = old
stream h access old (some f) = if ltb_ℤ (pos 0) (h.opens (some f) access) then some f else old

-- The arguments behind a redirection of the input: the file's name is added where the file opens.
unfoldable pub with_file : Host → List Str → File → List Str
with_file h args none = args
with_file h args (some f) =
    if ltb_ℤ (pos 0) (h.opens (some f) read_only) then args ++ f ∷ [] else args

pub input_arguments-with_file :
    (h : Host) (flag : ℕ) (args : List Str) (input : File)
    → (flag == 2) ≡ false
    → input_arguments h flag args input ≡ with_file h args input
unfolding input_arguments append_argument with_file
input_arguments-with_file h flag args none e = refl
input_arguments-with_file h flag args (some f) e =
    elim (Bool-cases (ltb_ℤ (pos 0) (h.opens (some f) read_only))) [
      | inl opens ↦ rw (opens, e) refl
      | inr stays ↦ rw stays refl
    ]

program-run_program :
    (h : Host) (t : Table) (args : List Str)
    → h.runs args ≡ true
    → program h t (run_program h args)
      ≡ some (record { arguments = args; stdin = t 0; stdout = t 1 })
unfolding program run_program
program-run_program h t args e = ground (arith, e)

positive : (k : ℕ) → ltb_ℤ (pos 0) (pos (k + 3)) ≡ true
positive k = ground arith

-- the table behind the three calls of a redirection
abbrev redirected : Table → ℕ → Str → ℕ → Table
redirected t fd f to = put (put (put t fd (some f)) to (put t fd (some f) fd)) fd none

pub input_arguments_lem :
    (h : Host) (flag : ℕ) (n : Str) (args : List Str) (input : File)
    → (rest : List Str) × (input_arguments h flag (n ∷ args) input ≡ n ∷ rest)
unfolding input_arguments append_argument
input_arguments_lem h flag n args none = (args, refl)
input_arguments_lem h flag n args (some f) =
    elim (Bool-cases (ltb_ℤ (pos 0) (h.opens (some f) read_only) && not (flag == 2))) [
      | inl e ↦ rw e (args ++ f ∷ [], refl)
      | inr e ↦ rw e (args, refl)
    ]

run_child_ordinary :
    (h : Host) (flag : ℕ) (n : Str) (rest args : List Str) (input output : File)
    → (flag == 2) ≡ false
    → args ≡ n ∷ rest
    → run_child h flag args input output ≡ run_program h args
unfolding run_child
run_child_ordinary h flag n rest args input output e same_args = rw (same_args, e) refl

module _ (h : Host) (p : IsPlainHost h) where
  input_calls-program :
      (t : Table) (input : File)
      → (u : Table) × (((cs : List Call) → program h t (input_calls h input ++ cs) ≡ program h u cs)
          × ((u 0 ≡ stream h read_only (t 0) input) × (u 1 ≡ t 1)))
  unfolding program input_calls stream opened copied closed
  input_calls-program t none = (t, ((λ cs. refl), (refl, refl)))
  input_calls-program t (some f) = elim (p.fresh (some f) read_only) [
    | inl e ↦ rw e (t, ((λ cs. rw e refl), (refl, refl)))
    | inr (k, e) ↦ (
      redirected t (k + 3) f 0,
      (
        (λ cs.
            rw (e, positive k, p.duplicable (pos (k + 3)))
              (rw (e, p.duplicable (pos (k + 3))) refl)),
        (rw (e, positive k) (ground arith), ground arith),
      ),
    )
  ]

  unopened_output :
      (always : Bool) (t : Table) (g : Str) (cs : List Call)
      → h.opens (some g) truncate ≡ negsuc 0
      → program h t (output_calls h always (some g) ++ cs) ≡ program h t cs
  unfolding program output_calls opened closed
  unopened_output true t g cs e = rw e (rw e refl)
  unopened_output false t g cs e = rw e (rw e refl)

  output_calls-program :
      (always : Bool) (t : Table) (output : File)
      → (u : Table) × (((cs : List Call)
            → program h t (output_calls h always output ++ cs) ≡ program h u cs)
          × ((u 0 ≡ t 0) × (u 1 ≡ stream h truncate (t 1) output)))
  unfolding program output_calls stream opened copied closed
  output_calls-program always t none = (t, ((λ cs. refl), (refl, refl)))
  output_calls-program always t (some g) = elim (p.fresh (some g) truncate) [
    | inl e ↦ (t, ((λ cs. unopened_output always t g cs e), (refl, rw e refl)))
    | inr (k, e) ↦ (
      redirected t (k + 3) g 1,
      (
        (λ cs. rw (e, positive k, p.duplicable (pos (k + 3))) (rw e refl)),
        (ground arith, rw (e, positive k) (ground arith)),
      ),
    )
  ]

  -- The redirections leave the other calls of a child with the streams of the two files.
  pub redirections-program :
      (always : Bool) (t : Table) (input output : File) (rest : List Call)
      → (u : Table) × ((program h t (input_calls h input ++ (output_calls h always output ++ rest))
            ≡ program h u rest)
          × ((u 0 ≡ stream h read_only (t 0) input) × (u 1 ≡ stream h truncate (t 1) output)))
  redirections-program always t input output rest =
      let a = input_calls-program t input in
      let b = output_calls-program always a.0 output in
      (
        b.0,
        (
          a.1.0 (output_calls h always output ++ rest) ∙ b.1.0 rest,
          (b.1.1.0 ∙ a.1.1.0, b.1.1.1 ∙ ap (λ x. stream h truncate x output) a.1.1.1),
        ),
      )

  -- The program behind the redirections, for an ordinary command
  pub ordinary-program :
      (always : Bool) (t : Table) (input output : File) (args : List Str)
      → h.runs args ≡ true
      → program h t (input_calls h input ++ (output_calls h always output ++ run_program h args))
        ≡ some (record {
          arguments = args;
          stdin = stream h read_only (t 0) input;
          stdout = stream h truncate (t 1) output;
        })
  ordinary-program always t input output args runs =
      let c = redirections-program always t input output (run_program h args) in
      c.1.0 ∙ program-run_program h c.0 args runs ∙ rw (c.1.1.0, c.1.1.1) refl

  -- A command that is not a custom one runs with its own arguments; where an input file opens, it is
  -- standard input and its name is added as the last argument; where an output file opens, it is
  -- standard output. A file that does not open leaves the stream, and the arguments, as they were. This
  -- holds where the program can be run, where `open` gives -1 or a descriptor beyond 2, and `dup2`
  -- succeeds.
  pub child_ordinary :
      (t : Table) (flag : ℕ) (n : Str) (args : List Str) (input output : File)
      → (flag == 2) ≡ false
      → ((l : List Str) → h.runs l ≡ true)
      → program h t (child h flag (n ∷ args) input output)
        ≡ some (record {
          arguments = with_file h (n ∷ args) input;
          stdin = stream h read_only (t 0) input;
          stdout = stream h truncate (t 1) output;
        })
  unfolding child
  child_ordinary t flag n args input output e runs =
      let l = input_arguments h flag (n ∷ args) input in
      let r = input_arguments_lem h flag n args input in
      let same_calls : run_child h flag l input output ≡ run_program h l =
        run_child_ordinary h flag n r.0 l input output e r.1 in
      rw (same_calls, ← input_arguments-with_file h flag (n ∷ args) input e)
        (ordinary-program true t input output l (runs l))
