-- ===== src/Evaluation/Outcome.antt =====
-- What the run of an instance of SWE-bench returns and raises.
use aenvironment.Common.{
  ◌≡◌, refl, ap, sym, subst, ◌∙◌, Bool, true, false, Option, none, some, ◌++◌, is_some, Bool-cases,
  inl, inr, if◌then◌else◌,
}
use aenvironment.Common.Text.{Str, lit}
use aenvironment.Common.Words.{replace}
use aenvironment.Common.Dict.{Dict}
use aenvironment.Effect.{Result, ok, err, Eff, pure, ◌>>=◌, ◌>>◌, follow}
use aenvironment.Effect.Exceptions.{Exn}
use aenvironment.Shell.Process.{ExecResult, line}
use aenvironment.Shell.Outcomes.{returns, output_of}
use aenvironment.Grading.Report.{SweRun, Report, get_run_report}
use aenvironment.Evaluation.{
  System, apply_patch, evaluate, run_instance_aenv, write_script, run_script, diff, record_output,
  default_eval_file, local_code_space,
}
use aenvironment.Evaluation.Patch.{
  is_applied, with_patch, run_applies, unapplied_raises, apply_outcome, outcome, Tries,
}

module _ {W A B : Type 0} (P : Result B → Type 0) where
  follow_any :
      (r : Result A) (f : A → Eff W B) (w : W)
      → returns r ≡ true
      → ((a : A) → P (f a w).0)
      → P (follow r f w).0
  follow_any (ok a) f w h k = k a
  follow_any (err e) f w h k = absurd (cc)

  bind_any :
      (m : Eff W A) (f : A → Eff W B) (w : W)
      → returns (m w).0 ≡ true
      → ((a : A) → P (f a (m w).1).0)
      → P ((m >>= f) w).0
  unfolding ◌>>=◌
  bind_any m f w h k = follow_any (m w).0 f (m w).1 h k

-- The commands that a run issues: in another directory, or a shell on the script of the tests, which
-- is in a file of its own or in the default one.
pub data Issued (script : Str) : Str → Type 0 where
  changes : (s : Str) → Issued script (lit "cd " ++ s)
  default_script : Issued script (lit "/bin/bash " ++ default_eval_file)
  own_script : Issued script (lit "/bin/bash " ++ script)

module _ {W : Type 0} (system : System W) (parsers : Str → Option (Str → Result (Dict Str)))
    (root : Str) (spec : SweRun) where
  -- the file of the script, and the state with it: the script is itself the path of a file that
  -- exists, or a text that is put into the default file with the full name of the locale
  abbrev pub script_file : Str → W → Str
  script_file script w = if system.exists script w then script else default_eval_file

  abbrev pub with_script : Str → W → W
  with_script script w =
      if system.exists script w
      then w
      else system.write_file default_eval_file
          (replace (lit "locale-gen") (lit "locale-gen en_US.UTF-8") script) w

  -- the state in which the tests are run: after the commands that apply the patch and `git diff`
  abbrev pub patched : W → W
  patched w =
      (diff system parsers root (lit "/" ++ local_code_space)
        (apply_patch system parsers root w).1).1

  -- what the run of the script in a state gives
  abbrev pub run_of : Str → W → Result ExecResult
  run_of script w =
      (system.execute (line (lit "/bin/bash " ++ script_file script w)) (with_script script w)).0

  -- The report is made of what a run of the script has written in a state.
  pub data Reported (script : Str) (w : W) : Result Report → Type 0 where
    reported :
        (content : Str)
        → output_of (run_of script w) ≡ some content
        → Reported script w (get_run_report parsers content spec true)

  -- The commands of a run return, with an output.
  abbrev pub Answers : Str → Type 0
  Answers script =
      (s : Str) (w : W) → Issued script s → is_some (output_of (system.execute (line s) w).0) ≡ true

  returned : (r : Result ExecResult) → is_some (output_of r) ≡ true → returns r ≡ true
  returned (ok r) h = refl
  returned (err e) h = absurd (cc)

  diff-returns :
      (script dir : Str) (w : W)
      → Answers script
      → returns (diff system parsers root dir w).0 ≡ true
  unfolding diff pure
  diff-returns script dir w h =
      bind_any (λ (r : Result (Unit {0})). returns r ≡ true)
        (system.execute (line (lit "cd " ++ dir ++ lit " && git diff"))) (λ r. pure tt) w
        (returned _ (h _ w (changes _))) (λ r. refl)

  script_Issued : (script : Str) (w : W) → Issued script (lit "/bin/bash " ++ script_file script w)
  script_Issued script w = elim (Bool-cases (system.exists script w)) [
    | inl e ↦ rw e own_script
    | inr e ↦ rw e default_script
  ]

  script_written :
      (script : Str) (w : W)
      → write_script system parsers root script w
        ≡ (ok (script_file script w), with_script script w)
  unfolding write_script
  script_written script w = elim (Bool-cases (system.exists script w)) [
    | inl e ↦ rw e refl
    | inr e ↦ rw e refl
  ]

  script_any :
      (P : Result Report → Type 0) (script : Str) (f : Str → Eff W Report) (w : W)
      → P (f (script_file script w) (with_script script w)).0
      → P ((write_script system parsers root script >>= f) w).0
  unfolding ◌>>=◌
  script_any P script f w k =
      subst (λ (m : Result Str × W). P (follow m.0 f m.1).0) (sym (script_written script w)) k

  module _ (P : Result Report → Type 0) (f : Str → Eff W Report) where
    recorded_any :
        (o : Option Str) (w : W)
        → is_some o ≡ true
        → ((s : Str) (v : W) → o ≡ some s → P (f s v).0)
        → P ((record_output system parsers root o >>= f) w).0
    unfolding ◌>>=◌
    recorded_any none w h k = absurd (cc)
    recorded_any (some s) w h k = k s _ refl

    output_any :
        (r : Result ExecResult) (w : W)
        → is_some (output_of r) ≡ true
        → ((s : Str) (v : W) → output_of r ≡ some s → P (f s v).0)
        → P ((follow r (λ x. record_output system parsers root x.stdout) >>= f) w).0
    unfolding ◌>>=◌
    output_any (ok r) w h k = recorded_any r.stdout w h k
    output_any (err e) w h k = absurd (cc)

  -- the last two steps, for the output of the script
  abbrev report_on : Str → Eff W Report
  report_on content = diff system parsers root local_code_space >> λ v.
      (get_run_report parsers content spec true, v)

  script_Reported :
      (script : Str) (w : W)
      → Answers script
      → Reported script w
          ((run_script system parsers root (script_file script w) >>= report_on)
            (with_script script w)).0
  unfolding run_script ◌>>=◌ ◌>>◌
  script_Reported script w h =
      let (r, v) =
        system.execute (line (lit "/bin/bash " ++ script_file script w)) (with_script script w) in
      output_any (Reported script w) report_on r v
        (h _ (with_script script w) (script_Issued script w))
        (λ s u e.
          bind_any (Reported script w) (diff system parsers root local_code_space)
            (λ _ t. (get_run_report parsers s spec true, t)) u
            (diff-returns script local_code_space u h) (λ _. reported s e))

  abbrev report_for : Str → Eff W Report
  report_for eval_file = run_script system parsers root eval_file >>= report_on

  evaluate-Reported :
      (script : Str) (w : W)
      → Answers script
      → Reported script
          (diff system parsers root (lit "/" ++ local_code_space) w).1
          (evaluate system parsers root spec script w).0
  unfolding evaluate ◌>>◌
  evaluate-Reported script w h =
      let v : W = (diff system parsers root (lit "/" ++ local_code_space) w).1 in
      bind_any (Reported script v) (diff system parsers root (lit "/" ++ local_code_space)) _ w
        (diff-returns script (lit "/" ++ local_code_space) w h)
        (λ _. script_any (Reported script v) script report_for v (script_Reported script v h))

  tries : (script : Str) → Answers script → Tries system parsers root
  tries script h = (λ v. returned _ (h _ v (changes _)), λ v. returned _ (h _ v (changes _)))

  -- the outcome of a run of a script, by whether the patch is applied to a state
  abbrev pub Judged : Bool → Str → W → Result Report → Type 0
  Judged true script w r = Reported script (patched w) r
  Judged false script w r = r ≡ err Exn.evaluation_error

  applied_Reported :
      (script : Str) (w : W)
      → Answers script
      → is_applied system parsers root w ≡ true
      → Reported script
          (patched w)
          ((apply_patch system parsers root >> evaluate system parsers root spec script) w).0
  unfolding ◌>>◌
  applied_Reported script w h e =
      bind_any (Reported script (patched w)) (apply_patch system parsers root)
        (λ _. evaluate system parsers root spec script) w
        (ap returns (apply_outcome system parsers root w (tries script h))
          ∙ ap (λ b. returns (outcome system parsers root b)) e)
        (λ _. evaluate-Reported script (apply_patch system parsers root w).1 h)

  Judged-by :
      (b : Bool) (eval_script patch : Str) (w : W)
      → Answers eval_script
      → spec.model_patch ≡ some patch
      → is_applied system parsers root (with_patch system parsers root patch w) ≡ b
      → Judged b eval_script
          (with_patch system parsers root patch w)
          (run_instance_aenv system parsers root spec eval_script w).0
  Judged-by true script patch w h e a =
      subst
        (λ (r : Result Report × W).
          Reported script (patched (with_patch system parsers root patch w)) r.0)
        (sym (run_applies system parsers root spec script patch w e))
        (applied_Reported script (with_patch system parsers root patch w) h a)
  Judged-by false script patch w h e a =
      unapplied_raises system parsers root spec script patch w (tries script h) e a

  -- Where the commands of the run return with outputs and there is a patch, the run of an instance
  -- gives the report of what the run of the script has written in the state after the patch, if one
  -- of the two commands that apply the patch succeeds, and else raises an EvaluationError.
  pub run-Judged :
      (eval_script patch : Str) (w : W)
      → Answers eval_script
      → spec.model_patch ≡ some patch
      → (let v = with_patch system parsers root patch w in
          Judged
            (is_applied system parsers root v)
            eval_script
            v
            (run_instance_aenv system parsers root spec eval_script w).0)
  run-Judged script patch w h e = Judged-by _ script patch w h e refl
