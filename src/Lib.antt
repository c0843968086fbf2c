-- ===== src/Lib.antt =====
-- QUADS schedules the hosts of a lab: a cloud is a named slot, an assignment gives a cloud to an owner
-- for a purpose, a schedule books a host for an assignment from a start to an end, and a move brings a
-- host to the cloud where its schedule has it. This library models the server's core, the rules by
-- which the REST API changes the database, and proves what keeps the bookings sound.
--
-- Parts and files, with the code that each is about:
--   Base             shared helpers: Boolean tests, tables as lists of rows with the queries and updates on
--                    them (Base/Rows), and chains of checks that pass, refuse or raise (Base/Results)
--   Models           the rows and the database (src/quads/server/models.py); Models/Stages: MoveStatus and
--                    Schedule.stage_of
--   Session          commits: BaseDao.safe_commit (src/quads/server/dao/baseDao.py), the configuration, and
--                    the environment of a request
--   Dao              the queries and writes of src/quads/server/dao: Dao/Cloud, Dao/Host, Dao/Vlan,
--                    Dao/Notification, Dao/Assignment and Dao/Schedule, one file for each
--   Api/Schedules    src/quads/server/blueprints/schedules.py: Window (the window of a self-schedule), Create
--                    (POST), Batch (POST /batch), Update (PATCH), Delete (DELETE), Current
--                    (GET /current and /future)
--   Api/Assignments  src/quads/server/blueprints/assignments.py: Create (POST), Self (POST /self), Terminate
--                    (POST /terminate and DELETE)
--   Api/Moves        src/quads/server/blueprints/moves.py with the parts of ScheduleDao behind it: Needed (the
--                    moves that are due) and Progress (those that are under way)
--   Api/Access       check_access of src/quads/server/blueprints/__init__.py, ApiTokenDao.authenticate_token
--                    and User.decode_auth_token
--   Api/Tokens       the tokens of src/quads/server/blueprints/api_tokens.py and ApiTokenDao
--   Api/Login        registration, login and logout: src/quads/server/blueprints/auth.py; Tokens (what the guard
--                    makes of their tokens) and Accounts
--   Api/Available    src/quads/server/blueprints/available.py: the hosts that are free in an interval
--   Api/Notifications  PATCH of src/quads/server/blueprints/notifications.py
--   Api/Serving      sequences of requests to the routes above and of actions of the command line
--   Cli              --extend and --shrink of src/quads/cli/cli.py: Chosen (the schedules that they take),
--                    Extend and Shrink; Resized is what they may do to the bookings
--   Tools/Notify     src/quads/tools/notify.py: the messages about assignments and their flags; Parts is
--                    main; Announced, Expirations, Futures and Once say which go out again
--   Helpers          src/quads/helpers/utils.py: Vlans (the VLAN of an interface), Span (the days of a report)
--   Plugins/Manager  PluginManager of src/quads/plugins/manager.py: the plugins that are loaded
--   Plugins/Dispatchers  src/quads/plugins/dispatchers/base.py: Chosen (the plugins that are called) and Results
--   Plugins/Switch   SwitchDispatcher of src/quads/plugins/dispatchers/switch.py
--   Programs         programs of calls to devices, plugins and the API, and the worlds that answer them;
--                    Triples (properties of all runs) and Completion (runs in which all is answered)
--   Plugins/Release  StandardReleasePlugin of src/quads/plugins/builtin/release/standard.py: Calls, Hardware and
--                    Rebuild are the code; Seen, Hidden, Going, Parts, Credentials, Ends, Completion and Moved
--                    what is seen of a move, Delivered what the API stores of its reports
--   Plugins/Validation  EnvironmentValidator of src/quads/plugins/builtin/validators/environment.py: Calls, Tests
--                    and Validate are the code; Noted, Testing, Passing, Granted, Ending and Validated what is
--                    noted of a validation
--   Tests            a small database, and runs of the code on it
--
-- The state is one record, Db, with a list of rows for each table and the next key of each sequence. A route
-- is a function from the environment, the request and the database to its answer and the database after it.
-- Its checks are do blocks over Outcome, in the order of the code: pass is a success, refuse an error
-- response with its status and message, crash an exception that nothing catches. A read before a row lock
-- sees the database of the start of the request; the environment's others gives what other transactions
-- commit while the request waits for its i-th lock, clock what its i-th reading of the clock returns, and
-- commits whether its i-th commit succeeds: the theorems hold for every environment that they do not
-- restrict by name. A failed commit leaves what was saved. A route that takes no row lock runs alone: what
-- commits between its checks and its own commit is not modelled. A query after a lock reads each row as it
-- is then stored, also a row that the session has loaded before the lock. The notification that
-- AssignmentDao.get_assignment attaches to an assignment without one is left out.
--
-- A workflow of a plugin is a Program: the tree of its calls, each with what follows its answers. A call is
-- answered with True (affirmed), another value (other) or an exception (raised), or with a text or None, by a
-- world that may look at all that has happened: the theorems hold in every world that they do not restrict.
-- An await runs to its end before the next call, and a workflow runs alone. What is seen of a command on the
-- tenant's user is that it was sent: the code logs a failure to disable the user and goes on.
--
-- Numbers are natural numbers without a bound, as Python's are. A date is a number of microseconds since
-- the start of the year 1; Python's bound at the year 9999 is not modelled. All loops are structural
-- recursions on lists or on a number of attempts, but for date_span, whose loop takes fuel: one turn more
-- than its span is long is enough, which is proved.
--
-- An action of the command line and the tool for messages are clients of the routes: each of their requests
-- is the route's function on the database, with an environment of its own, and nothing else writes between
-- them. A date that they send is a text to the minute; where a theorem needs that the server reads it as that
-- minute, this is a hypothesis on strptime and on the text. The client and the server are in one time zone.
--
-- Parameters, since their code is not in the repository: datetime.strptime and isoformat, int of
-- a text, the answers of a user, the delivery of messages, the classes of plugins, str.lower, str.strip and
-- re.split, x in y and str.split of texts, jwt.encode and jwt.decode, hashlib, the making and the check of a
-- password hash, validators.email, what the ticketing service answers to the creation of a ticket, and what
-- devices, provisioners, the API and the clients of src/quads/tools/external answer to a workflow. The types
-- of the values in a JSON body are taken as given.
--
-- Not modelled: the other read-only routes and their filters, hosts, clouds and VLANs as such, the hardware
-- inventories, users as such, the SSH keys and ticket comments that follow some requests, the texts
-- of e-mails and reports, what happens between the calls of workflows that run at one time, the other plugins
-- and tools, the discovery of plugins by import, and the other actions of the command line. Rows come in the table's order where a query names no
-- order or orders by name. The referential integrity of the database is not assumed.
pub mod Base
pub mod Models
pub mod Programs
pub mod Session
pub mod Dao
pub mod Api
pub mod Cli
pub mod Tools
pub mod Helpers
pub mod Plugins
pub mod Tests
