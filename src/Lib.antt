-- ===== src/Lib.antt =====
-- The backend of an IoT dashboard: devices report telemetry and status over MQTT or HTTP, rules
-- raise alerts, users watch over WebSockets and send commands back. This library models the code of
-- apps/ as functions on one explicit state and proves what makes its parts correct.
--
-- Parts and files
--   World         the state: the tables of the database, what was sent to the channel layer, the task
--                 queue and the broker, and the surroundings of a call (clock, actor, address, the
--                 broker's answer, the base topic).
--   Core          apps/core: BaseModel and AuditLog (Core/Models), soft deletion (Core/SoftDelete),
--                 record_audit (Core/Services), broadcast (Core/Realtime), the permission classes
--                 (Core/Permissions), the tenant scope of the viewsets (Core/Scope), the audit
--                 context (Core/Middleware), the probe (Core/Views), JSON values (Core/Json), and the
--                 conversions of Python and Django as a parameter (Core/Codec).
--   Accounts      apps/accounts: roles, grants, User.can_access_device (Accounts/Models), UserManager
--                 and registration (Accounts/Managers), the administrative lists (Accounts/Views), the
--                 creation of a grant (Accounts/Grants).
--   Devices       apps/devices: models, the save with its two signals (Devices/Signals),
--                 dispatch_command and transition_command (Devices/Services), the periodic tasks
--                 (Devices/Tasks), the command endpoint and the summaries (Devices/Views),
--                 registering, editing and deleting a device (Devices/Api), the device filter and the
--                 lists (Devices/Lists), the path of a group (Devices/Groups), the command seed_demo
--                 (Devices/Seed).
--   Telemetry     apps/telemetry: ingest_payload (Telemetry/Services/Liveness, then Ingest), _coerce
--                 and _guess_type (Telemetry/Services/Coerce), the retention job (Telemetry/Tasks), the
--                 HTTP endpoint and the recent readings (Telemetry/Views), the aggregation of a
--                 sensor's readings by time buckets (Telemetry/Aggregate).
--   Alerts        apps/alerts: rules and alerts (Alerts/Models), raise_alert (Alerts/Services/Raise),
--                 the evaluation of rules (Alerts/Services/Evaluate), fan-out (Alerts/Services/Notify),
--                 acknowledge, resolve and auto-resolve (Alerts/Services/Lifecycle), the periodic
--                 check and the delivery (Alerts/Tasks), the lists and the inbox (Alerts/Views), the
--                 lists of rules and channels and the creation of a rule (Alerts/Rules). The map from
--                 rule and device to the open incident, which the engine implements, is
--                 Alerts/Incidents.
--   Mqtt          apps/mqtt: topics.py, handlers.py, and of client.py the callback, the subscriptions
--                 and the publisher. The answer of a device to a command and its
--                 telemetry are those of management/commands/simulate_device.py (Mqtt/Simulator).
--   Realtime      apps/realtime: consumers.py and middleware.py.
--   Beat          config/celery.py: the schedule of the periodic jobs, and what they do together.
--   Isolation     the nine lists of devices, telemetry and alerts together.
--   Base, Frame   shared names, tables as lists, outcomes of calls, and which tables a call leaves.
--   Examples      test data, and each theorem applied to it.
--
-- How the code is read
--   A model class is a record, its choices a data type, a foreign key the key of a row, and a table
--   the list of its rows in query order. A query set is a filter on the list; save(update_fields=...)
--   writes the named columns of the rows with that key. A UUID and a sequence number are both the
--   next number of World.next_id. A call that may raise returns an Outcome together with the state
--   that it left, so that what was written before an exception stays written, as without a
--   transaction around the request; get_or_create with its unique constraint and its second lookup
--   is written out. Instants are microseconds. A float is a whole number of thousandths, an infinity
--   or NaN: comparisons and differences are those of Python on such values; rounding is not modelled.
--   Two loops run on fuel: the retention job, where one more than the number of readings is enough,
--   and the path of a group, where one more than the number of its ancestors is. All other loops run
--   over a list. The schedule is run on a grid of half minutes, the interval of its most frequent
--   job; there the retention job gets the number of readings plus one as fuel. What json.loads
--   returned, what a text converts to, what the serializer of the ingestion endpoint validates, the
--   mean of the values of a time bucket, the text of a key, and whether the mail server or a webhook
--   takes a message are arguments. A text is a sequence of Unicode characters, without lone surrogates.
--
-- Not modelled
--   The checks of single fields in serializers, search, ordering and pages of the API, passwords and
--   the verification of tokens, socket routing, the MQTT client library, Celery's queues and
--   workers, settings, admin, migrations, edits of camera feeds, and the random generator of
--   the simulator.
--   What PostgreSQL refuses with DataError is modelled for the keys, texts and JSON values of sensors
--   and readings; the widths of all other text columns are not, so that a command of more than 64
--   characters is stored here; a command that is no text is refused. A hard deletion cascades within
--   its own table.
--   Requests and jobs run one after the other: there is no interleaving inside a call.
pub mod Base
pub mod Core
pub mod Accounts
pub mod Devices
pub mod Telemetry
pub mod Alerts
pub mod World
pub mod Mqtt
pub mod Frame
pub mod Isolation
pub mod Realtime
pub mod Beat
pub mod Examples
