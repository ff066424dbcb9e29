-- ===== src/Lib.antt =====
-- SpoutBreeze backend: what a subscription lets a user do, how payments reach the database, the
-- life of events, running broadcasts, who is online, notifications, organizations with their
-- members, connections to streaming platforms, stream endpoints, and the cache before services.
--
-- The program (app/) is a FastAPI service over SQLAlchemy sessions. A request opens a session, calls
-- one service, and closes the session, which drops what was not committed. Services call Stripe and a
-- BigBlueButton server. What those answer is an input of the model, as are drawn ids, passwords and
-- the clock, in seconds.
--
-- Prelude: the names of the libraries, Boolean tests, lists and counting.
-- Prelude/Session: a database session as durable and pending tables, with commit, rollback and
--   exceptions (app/config/database/session.py). A function of the source that takes `db` is an Action
--   of the same name.
-- Billing/Plan: plans, statuses and limits (app/models/payment_models.py).
-- Billing/Plan/Quality: stream qualities and the clamping of app/services/broadcaster_service.py.
-- Billing/Store: the tables of app/models/payment_models.py, and saving a row under their constraints.
-- Billing/Guard: SubscriptionGuard and its dependencies (app/utils/subscription_middleware.py).
-- Billing/Stripe: the payloads of Stripe that app/services/payment_service.py reads.
-- Billing/Service: customers, checkout, portal, trial and cancellation of PaymentService.
-- Billing/Rows: the rows that the webhook handlers write.
-- Billing/Webhook: handle_webhook_event and its handlers, `_handle_x` being handle_x.
-- Billing/Sync: sync_transactions_from_stripe, as sync_transactions.
-- Billing/Reconcile: reconcile_subscription_from_stripe, as reconcile_subscription.
-- Events/Store: the tables of app/models/event and app/models/channel.
-- Events/Channels: ChannelsService (app/services/channels_service.py).
-- Events/Forms: what a user sends (app/models/event/event_schemas.py), and the row that comes of it
--   (app/utils/event_helpers.py).
-- Events/Meetings: create_meeting and end_meeting (app/services/bbb_service.py).
-- Events/Service: EventService (app/services/event_service.py), the calls that change events. Its
--   children follow the table of events through every call: Rows, Effects, Created, Step, and then
--   Lifecycle, Permission and Credentials.
-- Events/Queries: the calls of EventService that only read.
-- Events/Cached: EventServiceCached and ChannelsServiceCached (app/services/cached), which call the
--   services through the cache of Cache/Through.
-- Events/Routes: app/controllers/event_controller.py and channels_controller.py before those; the
--   handler x is x_route.
-- Presence: NotificationWSManager (app/config/notification_ws_manager.py), one process at a time.
-- Streams/Tracker: StreamTracker (app/services/broadcaster_service.py), in Redis or in the process.
-- Streams/Broadcast: start_broadcasting and stop_broadcast of the same file; they read the plan by the
--   functions of Billing.
-- Streams/Usage: get_usage_stats of PaymentService, which reads the tracker.
-- Notifications/Store: the tables of app/models/notification_models.py and fcm_token_model.py, the
--   counters in Redis, and a World that holds them with the sockets and the tasks that were started.
--   Rows stand newest first. An idempotency key is a constructor with the parts of its text.
-- Notifications/Service: notify, notify_bulk, _dispatch and their helpers of NotificationService
--   (app/services/notification_service.py); a leading underscore of the source is dropped, and
--   _get_preferences is get_channels.
-- Notifications/Inbox: what a user asks of the same service.
-- Notifications/Delivery, Notifications/Background: attempts, device tokens, and the status of a
--   delivery (app/services/notification_delivery.py and the tasks of NotificationService).
-- Notifications/Calls: any sequence of calls of the service, an exception ending its session.
-- Notifications/Reminders: EventReminderService (app/services/event_reminder_service.py).
-- Organizations/Store, Organizations/Texts: users, organizations, domains and invites
--   (app/models/user_models.py, app/models/organization_models.py), and what is read of their texts.
-- Organizations/Server: a session beside the caches of app/services/cached/user_service_cached.py.
-- Organizations/Mine, Organizations/Claims, Organizations/Responses: the routes of
--   app/controllers/org_admin_controller.py on members, and on invites and domains.
-- Organizations/Requests: all of those as one step of a user.
-- Organizations/Users: app/controllers/user_controller.py.
-- Organizations/Platform: the organizations of app/controllers/admin_controller.py.
-- Organizations/Login: process_user_info (app/controllers/auth_controller.py).
-- Cache/Value, Cache/Codec: what is cached, JSON, and _to_json_safe with _from_json_safe
--   (app/config/redis_config.py). Python's own parsers and classes are a parameter.
-- Cache/Through: the decorators cached and cached_db of the same file, and delete_pattern; its child
--   Serving says when a cache does not show, Runs carries that along a list of calls, and Hits says
--   how long an entry stays.
-- Connections/Store: the table of app/models/connection_model.py; encryption is a parameter.
-- Connections/Service: ConnectionService (app/services/connection_service.py).
-- Connections/Refresh: refresh_expiring_tokens (app/services/token_refresh_service.py).
-- Connections/Calls: any sequence of those calls, each on a session of its own.
-- Endpoints/Store, Endpoints/Service: RtmpEndpointService (app/services/rtmp_service.py).
-- Endpoints/Cached: RtmpEndpointServiceCached (app/services/cached/rtmp_service_cached.py).
-- Tests under each part: concrete runs.
--
-- Every loop of the source that is modelled runs over a list, or over the attempts that are left, and
-- is structural recursion; no fuel is used. Amounts are numbers of cents without a bound, as in Python.
--
-- Not modelled: life times of Redis keys but for that of the set of online users, time stamps that
-- the database fills in, texts of messages and logs, the sending of e-mails, the dialogue with
-- Keycloak and with the platforms to which is streamed, the controllers but for those named above,
-- and the parts that only forward to other services.
pub mod Prelude
pub mod Billing
pub mod Events
pub mod Presence
pub mod Streams
pub mod Notifications
pub mod Organizations
pub mod Cache
pub mod Connections
pub mod Endpoints
