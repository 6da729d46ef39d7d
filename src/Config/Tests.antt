-- ===== src/Config/Tests.antt =====
-- Tests of the configuration of the command line.
use aenvironment.Common.{◌≡◌, ◌≢◌, refl}
use aenvironment.Common.Text.{Str, lit}
use aenvironment.Common.Json.{null, text}
use aenvironment.Config.{Manager, fresh, get, set}
use aenvironment.Config.Values.{get-set}

abbrev host : Str
host = lit "hub_config.hub_backend"

abbrev changed : Manager
changed = (set host (text (lit "x")) fresh).1

some_text : text (lit "x") ≢ null
some_text h = absurd (cc)

get-set_example : get host null changed ≡ text (lit "x")
unfolding set
get-set_example = get-set host (text (lit "x")) null fresh changed some_text refl
