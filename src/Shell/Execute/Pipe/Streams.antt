-- ===== src/Shell/Execute/Pipe/Streams.antt =====
-- myshell.c, `executeCommand` with a pipe: how the two programs are connected.
use decs.Shell.Commands.{check_custom_commands, commands_checker, matches}
use decs.Base.Int.{pos, eq_ℤ, negsuc}
use decs.Shell.Strings.{Str}
use decs.Shell.Execute.Pipe.{
  to_pipe, from_pipe, run_first, run_second, first_child, second_child, run_piped, run_other,
  flag_of, PipedRun,
}
use decs.Base.Family.{put}
use decs.Shell.Execute.{
  Host, File, Call, run_program, input_arguments, read_only, truncate, first_token,
}
use decs.Shell.Execute.Calls.{
  Table, IsPlainHost, program, copied, closed, stream, input_arguments_lem, with_file,
  input_arguments-with_file, ordinary-program,
}
use decs.Base.{ℕ, refl, some, List, none, ◌==◌, ◌≡◌, false, ◌++◌, ◌∷◌, true, ◌∙◌, arith}

-- The table of a child behind the calls for the pipe
abbrev pub writes_to : ℕ → Table → File → Table
writes_to w t none = put t 1 (t w)
writes_to w t (some g) = t

abbrev pub reads_from : ℕ → Table → File → Table
reads_from r t none = put (put t 0 (t r)) r none
reads_from r t (some f) = t

module _ (h : Host) (p : IsPlainHost h) where
  to_pipe-program :
      (w : ℕ) (t : Table) (output : File) (rest : List Call)
      → h.write_end ≡ pos w
      → program h t (to_pipe h output ++ rest) ≡ program h (writes_to w t output) rest
  unfolding to_pipe program copied
  to_pipe-program w t none rest e = rw (e, p.duplicable (pos w)) refl
  to_pipe-program w t (some g) rest e = refl

  from_pipe-program :
      (r : ℕ) (t : Table) (input : File) (rest : List Call)
      → h.read_end ≡ pos r
      → program h t (from_pipe h input ++ rest) ≡ program h (reads_from r t input) rest
  unfolding from_pipe program copied closed
  from_pipe-program r t none rest e = rw (e, p.duplicable (pos r)) refl
  from_pipe-program r t (some f) rest e = refl

  run_first_ordinary :
      (flag : ℕ) (n : Str) (rest args : List Str) (input output : File)
      → (flag == 2) ≡ false
      → args ≡ n ∷ rest
      → run_first h flag args input output ≡ run_program h args
  unfolding run_first
  run_first_ordinary flag n rest args input output e same_args = rw (same_args, e) refl

  run_second_ordinary :
      (flag : ℕ) (n : Str) (rest args : List Str) (input output : File)
      → (flag == 2) ≡ false
      → args ≡ n ∷ rest
      → run_second h flag args input output ≡ run_program h args
  unfolding run_second
  run_second_ordinary flag n rest args input output e same_args = rw (same_args, e) refl

  -- The first of two ordinary commands writes to the pipe unless it has an output file, and reads its
  -- input file if that opens.
  pub first_child_ordinary :
      (w : ℕ) (t : Table) (flag : ℕ) (n : Str) (args : List Str) (input output : File)
      → h.write_end ≡ pos w
      → (flag == 2) ≡ false
      → ((l : List Str) → h.runs l ≡ true)
      → program h t (first_child h flag (n ∷ args) input output)
        ≡ some (record {
          arguments = with_file h (n ∷ args) input;
          stdin = stream h read_only (writes_to w t output 0) input;
          stdout = stream h truncate (writes_to w t output 1) output;
        })
  unfolding first_child
  first_child_ordinary w t flag n args input output ew e runs =
      let l = input_arguments h flag (n ∷ args) input in
      let r = input_arguments_lem h flag n args input in
      let same_calls : run_first h flag l input output ≡ run_program h l =
        run_first_ordinary flag n r.0 l input output e r.1 in
      rw (same_calls, ← input_arguments-with_file h flag (n ∷ args) input e)
        (to_pipe-program w t output _ ew
          ∙ ordinary-program h p false (writes_to w t output) input output l (runs l))

  second_child_ordinary :
      (r : ℕ) (t : Table) (flag : ℕ) (n : Str) (args : List Str) (input output : File)
      → h.read_end ≡ pos r
      → (flag == 2) ≡ false
      → ((l : List Str) → h.runs l ≡ true)
      → program h t (second_child h flag (n ∷ args) input output)
        ≡ some (record {
          arguments = with_file h (n ∷ args) input;
          stdin = stream h read_only (reads_from r t input 0) input;
          stdout = stream h truncate (reads_from r t input 1) output;
        })
  unfolding second_child
  second_child_ordinary r t flag n args input output er e runs =
      let l = input_arguments h flag (n ∷ args) input in
      let q = input_arguments_lem h flag n args input in
      let same_calls : run_second h flag l input output ≡ run_program h l =
        run_second_ordinary flag n q.0 l input output e q.1 in
      rw (same_calls, ← input_arguments-with_file h flag (n ∷ args) input e)
        (from_pipe-program r t input _ er
          ∙ ordinary-program h p false (reads_from r t input) input output l (runs l))

-- Neither a built-in nor a custom command is rewritten.
check_custom_commands_ordinary :
    (n : Str) (args : List Str)
    → commands_checker (some n) ≡ 0
    → check_custom_commands (n ∷ args) ≡ n ∷ args
unfolding check_custom_commands commands_checker matches
check_custom_commands_ordinary n args e = ground (arith, e)

-- Of two commands with a pipe, neither built-in nor custom, where the first has no output file, the
-- first writes to the write end of the pipe, and the second reads the read end unless it has an input
-- file. The input file of each is standard input, and its name is added as the last argument, where it
-- opens, and the output file of the second is its standard output where it opens; a file that does not
-- open changes neither the stream nor the arguments. This holds where the pipe has its two
-- ends, both children are forked, each program can be run, `open` gives -1 or a descriptor beyond 2,
-- and `dup2` succeeds.
pub run_piped_ordinary :
    (h : Host) (p : IsPlainHost h) (r w : ℕ) (t : Table) (m : Str) (l : List Str) (input1 : File)
    (n : Str) (k : List Str) (input2 output2 : File)
    → h.read_end ≡ pos r
    → h.write_end ≡ pos w
    → eq_ℤ h.pid (negsuc 0) ≡ false
    → eq_ℤ h.pid_pipe (negsuc 0) ≡ false
    → ((args : List Str) → h.runs args ≡ true)
    → commands_checker (some m) ≡ 0
    → commands_checker (some n) ≡ 0
    → let run : PipedRun =
        run_piped h
          (record { arguments = m ∷ l; input = input1; output = none })
          (record { arguments = n ∷ k; input = input2; output = output2 }) in
      (program h t run.first
        ≡ some (record {
          arguments = with_file h (m ∷ l) input1;
          stdin = stream h read_only (t 0) input1;
          stdout = t w;
        }))
      × (program h t run.second
          ≡ some (record {
            arguments = with_file h (n ∷ k) input2;
            stdin = stream h read_only (reads_from r t input2 0) input2;
            stdout = stream h truncate (reads_from r t input2 1) output2;
          }))
unfolding run_piped run_other flag_of first_token stream
run_piped_ordinary h p r w t m l input1 n k input2 output2 er ew f1 f2 runs e1 e2 =
    rw
      (e1, f1, f2, e2, check_custom_commands_ordinary m l e1, check_custom_commands_ordinary n k e2)
      (
        first_child_ordinary h p w t 0 m l input1 none ew refl runs,
        second_child_ordinary h p r t 0 n k input2 output2 er refl runs,
      )
