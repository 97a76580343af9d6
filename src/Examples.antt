-- ===== src/Examples.antt =====
-- Concrete configurations, requests and results at which the theorems are applied.
pub mod Codec
pub mod Server
pub mod Redis
pub mod Amqp
pub mod Running
pub mod Tasks
pub mod Results
pub mod Services
pub mod Contexts
pub mod Asking
pub mod Queries
pub mod Uploads
pub mod Revoking
use project_mognet.Prelude.{ℕ, String, true, Option, none, some, List, [], ◌∷◌}
use project_mognet.Prelude.Eq.{nat_eq}
use project_mognet.Model.State.{running}
use project_mognet.Model.Value.{Python, Value, Exn, json}
use project_mognet.Model.Result.{Result, fresh}
use project_mognet.Backend.Memory.{Backend, empty}
use project_mognet.Config.{AppConfig, default_config}
use project_mognet.Registry.{TaskRegistry}
use project_mognet.Request.{Request, plain_request}
use project_mognet.Worker.Node.{Node, Holder}
use project_mognet.Worker.Processing.{TaskCode, Setting, returned}
use project_mognet.App.{Surroundings}

abbrev pub config : AppConfig
config = default_config "n"

abbrev pub registry : TaskRegistry
registry = record { names_to_tasks = ("add", 7) ∷ []; tasks_to_names = (7, "add") ∷ [] }

-- Every exception can be pickled, and every value is valid.
abbrev pub python : Python
python = record {
  type_name = λ v. "object";
  exception_name = λ e. "Exception";
  message = λ e. "failed";
  traceback = λ e. "";
  picklable = λ e. true;
  unpickled = λ e. e;
  validate = λ t v. some v;
}

-- Task functions that return a number at once.
abbrev pub code : TaskCode
code = record { accepts = λ req. true; body = λ req n. (n, returned (json "3")); stop = λ req n. n }

abbrev pub setting : Setting
setting = record {
  config = config;
  registry = registry;
  py = python;
  code = code;
  shared = true;
  now = 10;
  later = 12;
}

abbrev pub add_request : Request
add_request = plain_request 1 "add"

-- A result for the request 1, and one for its child 2.
abbrev pub backend : Backend
backend = record {
  results = (1, fresh 1) ∷ (2, fresh 2) ∷ [];
  tree = (1, 2 ∷ []) ∷ [];
  values = [];
  metadata = [];
}

abbrev pub holder : Holder
holder = record { message = 50; request = add_request; has_task = true }

-- A node that runs the request 1.
abbrev pub busy : Node
busy = record {
  backend = backend;
  states = [];
  running_tasks = (1, holder) ∷ [];
  waiting_tasks = 4 ∷ [];
  current_prefetch = 1;
  consuming = true;
  effects = [];
}

abbrev pub around : Surroundings
around = record {
  has_broker = true;
  accepts = λ queue msg. true;
  middleware = [];
  refuses = λ msg n. none;
  new_id = λ n. 90;
  format = λ args kwargs. "";
}
