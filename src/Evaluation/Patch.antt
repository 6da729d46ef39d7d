-- ===== src/Evaluation/Patch.antt =====
-- What becomes of the patch of an instance: how it is applied, and what is raised where it is not.
use aenvironment.Common.{
  ◌≡◌, refl, ap, ◌∙◌, Bool, true, false, ◌||◌, Option, some, arith, if◌then◌else◌, ◌&&◌,
}
use aenvironment.Common.Text.{Str}
use aenvironment.Common.Dict.{Dict}
use aenvironment.Effect.{Result, ok, err, Eff, ◌>>=◌, ◌>>◌, follow}
use aenvironment.Effect.Exceptions.{Exn}
use aenvironment.Shell.Process.{ExecResult, is_ok}
use aenvironment.Shell.Outcomes.{returns}
use aenvironment.Grading.Report.{SweRun, Report}
use aenvironment.Evaluation.{
  System, git_apply, git_apply_special, local_code_space, patch_file, patch_text, write_patch,
  apply_patch, applied, special_applied, run_instance_aenv, evaluate,
}

-- whether a command returned with the code 0
abbrev pub succeeded : Result ExecResult → Bool
succeeded (ok r) = is_ok r
succeeded (err e) = false

module _ {W : Type 0} (system : System W) (parsers : Str → Option (Str → Result (Dict Str)))
    (root : Str) where
  abbrev first : W → Result ExecResult × W
  first w = system.execute (git_apply root local_code_space) w

  -- One of the two commands that apply the patch succeeds, the second after the first.
  abbrev pub is_applied : W → Bool
  is_applied w =
      succeeded (first w).0
      || (returns (first w).0
          && succeeded (system.execute (git_apply_special root local_code_space) (first w).1).0)

  -- the outcome of the application of the patch, for what `is_applied` says
  abbrev pub outcome : Bool → Result (Unit {0})
  outcome b = if b then ok tt else err Exn.evaluation_error

  second_outcome :
      (r : Result ExecResult) (w : W)
      → returns r ≡ true
      → (follow r (special_applied system parsers root) w).0 ≡ outcome (succeeded r)
  second_outcome (ok r) w h = refl
  second_outcome (err e) w h = absurd (cc)

  first_outcome :
      (r : Result ExecResult) (w : W)
      → returns r ≡ true
      → returns (system.execute (git_apply_special root local_code_space) w).0 ≡ true
      → (follow r (applied system parsers root) w).0
        ≡ outcome (
            succeeded r
            || (returns r
                && succeeded (system.execute (git_apply_special root local_code_space) w).0))
  unfolding ◌>>=◌
  first_outcome (ok r) w h k = ground (
    arith,
    second_outcome (system.execute (git_apply_special root local_code_space) w).0
        (system.execute (git_apply_special root local_code_space) w).1 k,
  )
  first_outcome (err e) w h k = absurd (cc)

  -- The two commands give results.
  abbrev pub Tries : Type 0
  Tries =
      ((v : W) → returns (system.execute (git_apply root local_code_space) v).0 ≡ true)
      × ((v : W) → returns (system.execute (git_apply_special root local_code_space) v).0 ≡ true)

  pub apply_outcome :
      (w : W) → Tries → (apply_patch system parsers root w).0 ≡ outcome (is_applied w)
  unfolding apply_patch ◌>>=◌
  apply_outcome w h = first_outcome (first w).0 (first w).1 (h.0 w) (h.1 (first w).1)

  -- the state in which the patch is applied
  abbrev pub with_patch : Str → W → W
  with_patch patch w = system.write_file (patch_file root) (patch_text patch) w

  after_outcome :
      (r : Result (Unit {0})) (f : Unit {0} → Eff W Report) (w : W) (e : Exn)
      → r ≡ err e
      → (follow r f w).0 ≡ err e
  after_outcome (ok a) f w e h = absurd (cc)
  after_outcome (err x) f w e h = cc

  pub run_applies :
      (spec : SweRun) (eval_script patch : Str) (w : W)
      → spec.model_patch ≡ some patch
      → (run_instance_aenv system parsers root spec eval_script w)
        ≡ (apply_patch system parsers root >> evaluate system parsers root spec eval_script)
            (with_patch patch w)
  unfolding run_instance_aenv ◌>>◌ ◌>>=◌ write_patch
  run_applies spec eval_script patch w e = rw e refl

  unapplied :
      (f : Eff W Report) (w : W)
      → Tries
      → is_applied w ≡ false
      → ((apply_patch system parsers root >> f) w).0 ≡ err Exn.evaluation_error
  unfolding ◌>>◌ ◌>>=◌
  unapplied f w h k =
      let failure : (apply_patch system parsers root w).0 ≡ err Exn.evaluation_error =
        apply_outcome w h ∙ ap outcome k in
      after_outcome (apply_patch system parsers root w).0 (λ _. f)
        (apply_patch system parsers root w).1 Exn.evaluation_error failure

  -- Where the two commands give results and there is a patch, the run of an instance raises an
  -- EvaluationError if neither of the two commands that apply the patch succeeds.
  pub unapplied_raises :
      (spec : SweRun) (eval_script patch : Str) (w : W)
      → Tries
      → spec.model_patch ≡ some patch
      → is_applied (with_patch patch w) ≡ false
      → (run_instance_aenv system parsers root spec eval_script w).0 ≡ err Exn.evaluation_error
  unapplied_raises spec eval_script patch w h e k =
      ap (λ (r : Result Report × W). r.0) (run_applies spec eval_script patch w e)
      ∙ unapplied (evaluate system parsers root spec eval_script) (with_patch patch w) h k
