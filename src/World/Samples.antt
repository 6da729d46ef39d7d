-- ===== src/World/Samples.antt =====
-- A world and its answers, for the tests: the first two requests to the scheduler meet a network
-- error, and every later one finds a running instance; what the instance answers is fine, but the
-- calls of MCP tools fail.
use aenvironment.Common.{true, false, none, some, [], ◌∷◌, ltb, if◌then◌else◌}
use aenvironment.Common.Text.{lit}
use aenvironment.Common.Json.{object, end}
use aenvironment.Effect.{ok, err}
use aenvironment.Effect.Exceptions.{Exn}
use aenvironment.Models.{EnvInstance}
use aenvironment.World.{World, Oracle, Response, Request, Method, Body}

abbrev pub running_instance : EnvInstance
running_instance = record {
  id = lit "i-1";
  env = none;
  status = lit "Running";
  created_at = lit "2025-01-01";
  updated_at = lit "2025-01-01";
  ip = some (lit "10.0.0.7");
  labels = none;
}

abbrev instance_response : Response
instance_response = record {
  status_code = 200;
  parsed = ok (record {
    success = true;
    code = some 0;
    message = none;
    payload = some (record {
      truthy = true;
      as_instance = ok running_instance;
      as_instances = ok (running_instance ∷ []);
      as_service = err Exn.value_error;
      as_services = none;
    });
    error_code = none;
    error_message = none;
  });
}

abbrev pub flaky : Oracle
flaky = record {
  http = λ r n. if ltb n 4 then err Exn.request_error else ok instance_response;
  function = λ r n. ok (record { checked = ok tt; json = ok (object end) });
  tool = λ name args n. err Exn.other_error;
  tools = λ n. ok [];
  mcp = λ n. ok tt;
  is_connected = λ n. true;
  interrupted = λ n. false;
  latency = λ n. 5;
  jitter = λ n. 100;
  now_text = λ n. lit "2025-01-01";
}

abbrev pub new_world : World
new_world = record { calls = 0; clock = 1000; trace = [] }

abbrev pub get_request : Request
get_request = record {
  method = Method.get;
  url = lit "/env-instance/i-1";
  params = [];
  headers = [];
  body = Body.no_body;
}
