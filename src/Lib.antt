-- ===== src/Lib.antt =====
-- A model of mognet, a library that runs tasks on worker nodes: an application submits requests as
-- messages on a broker, workers take them and run the task functions, and results are kept in a
-- backend. Times are numbers, and so are the ids that the code makes with `uuid4`.
--
-- Which file models which part (paths from the root of the repository):
--   Prelude     tests, lists, association lists for `dict`, and an interface for equality
--   Model       mognet/model/result_state.py; the records and stored values of mognet/model/result.py
--               with the exceptions of mognet/exceptions
--   Redis       the commands of a Redis server, as an interface with the laws that are relied on
--   Backend     mognet/backend/memory_result_backend.py, the operations that
--               mognet/backend/base_result_backend.py adds, mognet/backend/redis_result_backend.py
--               with its encodings, keys and connection, and View, what both backends promise
--   TaskState   mognet/state/state.py and mognet/state/redis_state_backend.py
--   Lifecycle   the methods of `Result` in mognet/model/result.py, with its tree; Objects has the
--               value that an object keeps, and the methods that pass on to the backend
--   Request     mognet/primitives and the payloads of mognet/broker/base_broker.py
--   Config      mognet/app/app_config.py, with the queue names and routes of mognet/app/app.py
--   Registry    mognet/tasks/task_registry.py and mognet/decorators/task_decorator.py
--   Tools       mognet/tools/kwargs_repr.py, mognet/tools/retries.py, and the decorator of
--               mognet/backend/redis_result_backend.py
--   Broker      mognet/broker/memory_broker.py, and mognet/broker/amqp_broker.py: Acknowledging has
--               its messages, Declaring the declaration of queues by tasks that take turns, and
--               Querying the replies to a query, with the part of mognet/app/app.py that asks nodes
--               for their status
--   Worker      mognet/worker/worker.py: Node holds the state and its books, Admission the checks on
--               a request, Processing the run of a request, cancelling and closing
--   App         mognet/app/app.py: submitting, revoking, the messages of the control queue, in
--               Running starting, connecting, stopping, purging and the services, and in Asking
--               `run`, from the arguments of the call to the value
--   Context     mognet/context/context.py: how a request waits for others
--   Cli         mognet/cli: what the commands compute, before it is printed
--   AutoShutdown  demo/mognet_demo/middleware/auto_shutdown.py
--   Demo        demo/mognet_demo/tasks.py: the task that processes an upload, and in Service
--               demo/mognet_demo/api.py, the web service that takes uploads as jobs
--   Examples    each theorem at a concrete input
--
-- Functions keep the source's names without the leading underscore. The code around the program is a
-- parameter: Python's types, texts and pickling and pydantic's validation (Python in Model/Value),
-- the task functions and what runs while they are awaited (TaskCode in Worker/Processing, and an
-- argument of the waits in Context), the broker that takes a message, the middleware and `uuid4`
-- (Surroundings in App), the outcomes of a retried method (Script in Tools/Retries), the Redis server
-- (Redis), JSON, gzip, pydantic's forms of ids and times (Codec in Backend/Redis/Encoding), the AMQP
-- server with the calls that it refuses (Server in Broker/Amqp), and which parts of an application
-- raise (an argument in App/Running), pydantic's validation of a status (Pydantic in
-- Broker/Amqp/Querying), what the event loop does next (Event in AutoShutdown), and what an archive
-- holds and in which order its subtasks end (in Demo). What leaves a node, a broker or an application
-- is kept as a list of effects. Between two awaits of task functions the operations of a node are not
-- interleaved. A pipeline of Redis is a transaction, so its commands run one after another.
--
-- A result is modelled by its fields, and a backend by the fields of the results that it keeps. The
-- Redis backend makes a new object at each `get`, and the memory backend hands out the object that it
-- keeps, so that who holds one sees what is written to it later. The worker holds one while a task
-- function runs, and there both kinds are modelled (`shared` in the Setting of Worker/Processing);
-- elsewhere an object is used before other code runs, or reads its fields anew behind a wait.
--
-- The recursions of `delete` and of `revoke` over children run on fuel, for the depth of the
-- recursion. Where the children form no cycle there is a rank that falls from parent to child, and
-- fuel above the rank of the root is enough. Waiting for a result is over the list of what its polls
-- see.
--
-- Not modelled: the opening of Redis connections, the merging of generators (a copy of another
-- library), the heartbeat of the application, the branch of the worker for errors of its own code (it
-- puts the message back), how the command line reads options and prints, and the files and web
-- requests of the demo.
pub mod Prelude
pub mod Model
pub mod Backend
pub mod Lifecycle
pub mod Request
pub mod Redis
pub mod TaskState
pub mod Config
pub mod Registry
pub mod Tools
pub mod Broker
pub mod Worker
pub mod App
pub mod Context
pub mod AutoShutdown
pub mod Cli
pub mod Demo
pub mod Examples
