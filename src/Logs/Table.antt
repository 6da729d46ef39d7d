-- ===== src/Logs/Table.antt =====
-- `MAP_REPO_TO_PARSER_PY` of aenv/builtin-envs/swebench/src/eval/python_log_parser.py.
use aenvironment.Common.{ℕ, Bool, Option, List, [], ◌∷◌}
use aenvironment.Common.Text.{Str, lit}
use aenvironment.Common.Dict.{Dict, lookup}
use aenvironment.Effect.{Result, ok}
use aenvironment.Logs.{
  parse_log_pytest, parse_log_pytest_options, parse_log_pytest_v2, parse_log_matplotlib,
}
use aenvironment.Logs.Seaborn.{parse_log_seaborn}
use aenvironment.Logs.Django.{parse_log_django}
use aenvironment.Logs.Sympy.{parse_log_sympy}

abbrev pub Parser : Type 0
Parser = Str → Result (Dict Str)

-- What the regular expressions of the parsers get from the `re` module.
module _ (is_decimal : ℕ → Bool) (interrupted : Str → List Str) where
  abbrev pub pytest : Parser
  pytest log = ok (parse_log_pytest log)

  abbrev options : Parser
  options log = ok (parse_log_pytest_options log)

  abbrev v2 : Parser
  v2 log = ok (parse_log_pytest_v2 is_decimal log)

  abbrev matplotlib : Parser
  matplotlib log = ok (parse_log_matplotlib log)

  abbrev sympy : Parser
  sympy log = ok (parse_log_sympy log)

  abbrev pub repo_parsers : Dict Parser
  repo_parsers =
      (lit "astropy/astropy", v2)
      ∷ (lit "django/django", parse_log_django interrupted)
      ∷ (lit "marshmallow-code/marshmallow", pytest)
      ∷ (lit "matplotlib/matplotlib", matplotlib)
      ∷ (lit "mwaskom/seaborn", parse_log_seaborn)
      ∷ (lit "pallets/flask", pytest)
      ∷ (lit "psf/requests", options)
      ∷ (lit "pvlib/pvlib-python", pytest)
      ∷ (lit "pydata/xarray", pytest)
      ∷ (lit "pydicom/pydicom", options)
      ∷ (lit "pylint-dev/astroid", pytest)
      ∷ (lit "pylint-dev/pylint", options)
      ∷ (lit "pytest-dev/pytest", pytest)
      ∷ (lit "pyvista/pyvista", pytest)
      ∷ (lit "scikit-learn/scikit-learn", v2)
      ∷ (lit "sqlfluff/sqlfluff", pytest)
      ∷ (lit "sphinx-doc/sphinx", v2)
      ∷ (lit "sympy/sympy", sympy)
      ∷ []

  unfoldable pub parser_of : Str → Option Parser
  unfolding lookup
  parser_of repo = lookup repo repo_parsers
