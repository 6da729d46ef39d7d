-- ===== src/Cli/Tests.antt =====
-- Tests of the helpers of the command line.
use aenvironment.Common.{◌≡◌, refl, not, none, some, List, [], ◌∷◌, map, each, All}
use aenvironment.Common.Text.{Str, lit}
use aenvironment.Common.Words.{strip, lstrip, rstrip}
use aenvironment.Common.Json.{array, nil}
use aenvironment.Effect.{ok}
use aenvironment.Cli.{parse_env_vars, make_api_url, split_env_name_version}
use aenvironment.Cli.Variables.{IsVariable, assignment, put_pair, parse_env_vars-assignments}
use aenvironment.Cli.Api.{
  Reply, response, list_instances, list_url, only_click, is_strange, list_instances-clicks,
}

abbrev variables : List (Str × Str)
variables = (lit "A", lit "1") ∷ (lit "B", lit "x=y") ∷ []

variables-All : All IsVariable variables
unfolding strip lstrip rstrip
variables-All = (((refl, tt), refl, refl), (((refl, tt), refl, refl), tt))

parse_env_vars-assignments_example :
    parse_env_vars (map assignment variables) ≡ ok (each put_pair variables [])
parse_env_vars-assignments_example = parse_env_vars-assignments variables variables-All

abbrev send : Str → Reply
send url = response 200 (some (array nil))

list_instances-clicks_example :
    only_click (list_instances send (lit "http://h") none none)
    ≡ not (is_strange (send (list_url (lit "http://h") none none)))
list_instances-clicks_example = list_instances-clicks send (lit "http://h") none none

-- The scheme of an address is not kept.
api_url : make_api_url (lit "https://h:1/p") (lit "8080") ≡ ok (lit "http://h:8080")
unfolding make_api_url
api_url = refl

name_version : split_env_name_version (lit "a@b@c") ≡ (lit "a", lit "b@c")
unfolding split_env_name_version
name_version = refl
