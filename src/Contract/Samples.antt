-- ===== src/Contract/Samples.antt =====
-- A small session for the tests of src/contract: a run that has ended with its child, and another run.
use mosoo_agent_driver.Base.{String, Option, none, some, List, [], ◌∷◌}
use mosoo_agent_driver.Contract.Common.{Timestamp}
use mosoo_agent_driver.Contract.State
use mosoo_agent_driver.Contract.State.{Session, Run, RunOutcome}
use mosoo_agent_driver.Contract.Snapshot.{SessionSnapshot}

abbrev pub at : String → Timestamp
at text = record { text = text; second = 5; fraction = [] }

abbrev pub session : Session
session = record {
  id = "s";
  status = State.open_session;
  created_at = at "t";
  updated_at = at "t";
  closed_at = none;
  title = none;
  cwd = none;
  capabilities = ("run.child", "{}") ∷ [];
  config = [];
  parent = none;
  provenance = none;
  extensions = none;
}

abbrev pub a_run : String → Option String → RunOutcome → Run
a_run id parent outcome = record {
  id = id;
  origin = State.system;
  input = [];
  started_at = at "t";
  parent_run_id = parent;
  retry_of = none;
  usage = none;
  provenance = none;
  extensions = none;
  outcome = outcome;
}

abbrev pub done : RunOutcome
done = State.run_completed (at "t") State.success

abbrev pub snapshot : List Run → SessionSnapshot
snapshot runs = record {
  protocol_version = 3;
  revision = 1;
  captured_at = at "t";
  session = session;
  runs = runs;
  items = [];
  interactions = [];
}

abbrev pub family : List Run
family = a_run "a" none done ∷ a_run "b" (some "a") done ∷ a_run "c" none done ∷ []
