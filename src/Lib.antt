-- ===== src/Lib.antt =====
-- A model of the parts of bookit that decide who gets a seat and who hears of it, with theorems about
-- them. bookit sells seats: the gateway admits one request at a time for each seat, the seat lock keeps
-- the owner of a seat on a list of Redis servers, the lock server keeps the records of the locks and settles
-- the ones that have run out, the HTTP server takes the requests for payments, which the payment
-- processor carries out under the locks, the outbox server hands the events that these write into the
-- database to the message broker, and the notification worker turns them into tickets and mails.
--
-- Redis/ is what the program relies on of Redis, which is not in the repository: a record of commands
-- with their documented laws (Redis/Interface.antt) over keys and values as data (Redis/Keys.antt, from
-- packages/redis-conn/src/keys.rs), a parameter of all that follows, and a concrete server that meets
-- it (Redis/Reference.antt), on which the examples run.
--
-- SeatLock/ is packages/redis-conn/src/single_node_lock.rs: Route.antt has crc16 and pool_for_seat,
-- Cluster.antt the list of servers and a command that runs, gets lost or whose answer gets lost,
-- Scripts.antt the Lua scripts, Single.antt the operations of SingleNodeLock, each under the name that
-- it has there. A call takes the state of all servers and an environment (connections given, commands
-- delivered, clocks) and gives the new state and its answer. Owner/ is about the owner of a seat,
-- Settle.antt about releases and bookings, Every.antt, NoContext.antt and Context.antt about the context key
-- and all writing calls of the trait. 32-bit seat ids are integers; a cast to u64 or usize wraps (as_u64), and so do the products on 64 bits.
--
-- Gateway/ is apps/gateway-keeper/src/state_active.rs: Actor.antt has CachePaddedShowActor and its
-- operations, each run alone; Registry.antt its map of seats to slots; Admission.antt the operations on
-- slots in any order; Eviction.antt the leases and the eviction of an idle actor, interleaved at each
-- atomic operation, once in one order of all and once with loads that may read older values. Show.antt, Kept.antt and Requests.antt are
-- GatewayState::lock with acquire_and_publish and the task of the actor, Cancel.antt
-- get_or_create_show_actor and cancel, Lifecycle.antt the closing and eviction of shows, Expiry.antt
-- release_expired_locks and handle_pubsub_message. Breaker.antt and Trips.antt are
-- apps/gateway-keeper/src/circuit_breaker.rs, its three operations over three Redis keys; RateLimit.antt is
-- apps/gateway-keeper/src/rate_limit_sliding.rs.
--
-- Outbox/ is apps/outbox-server/src: Policy.antt has the rules of lib.rs and routing.rs, Store.antt the
-- SQL statements of store.rs over lists of rows, Server.antt the publication (publisher.rs) and the loop
-- of lib.rs; Claims.antt, Lease.antt, Once.antt and Retry.antt are about them. The broker's answers, the clock and
-- the rows that other transactions lock are arguments.
--
-- Payment/ is apps/http-server/src/api/user/payments.rs and apps/payment-processor/src over the tables
-- that they share: Tables.antt the rows, Intent.antt same_payment_intent and parse_seat_ids, Checkouts.antt
-- and Request.antt request_payment, Orders.antt cancel_order, Commit.antt the transactions of repository.rs, Processor.antt
-- a delivery to process_messages with the seat lock of SeatLock/. A handler runs alone on what it reads,
-- and what fails on the way is an argument; Ledger.antt has the transactions as steps, which any number
-- of servers and workers take in any order, and its children what they keep. Counts.antt is about
-- UPDATE and COUNT, Locks.antt about the test of the locks, Redelivery.antt about messages that come
-- again. A UUID is a number, and an amount an exact decimal.
--
-- Schedules/ is apps/http-server/src/api/admin/schedules_v2.rs over the tables of schedules and their
-- seats: Tables.antt has the rows and the statements, Create.antt create_schedule, Extra.antt
-- add_extra_seats, Update.antt update_schedule and update_schedule_seats, Lifecycle.antt the opening, closing
-- and deletion with what they publish; chrono, bson, bigdecimal and MongoDB are arguments. Numbered.antt,
-- WellFormed.antt, InOrder.antt, Created.antt, Extended.antt, Added.antt, Rows.antt and Copied.antt are about
-- one handler each, Requests.antt puts the admin's requests one after the other, Started.antt, Closed.antt and Refused.antt are about a schedule that has been
-- started or closed, the last one with the gateway. Two handlers at once are not interleaved here.
--
-- SeatMap/ is what users are shown: Bitmap.antt has the two decoders of the bitmap (bitmap_seat_status of
-- apps/http-server/src/api/user/schedules_v2.rs and bitmap_snapshots of apps/ws-server/src/locking.rs),
-- Decoded.antt the layout that Redis documents for BITFIELD against which they are proved, Counts.antt and
-- Loaded.antt the grouped counts and load_schedule_seat_counts, View.antt the lists and the seat map,
-- Cache.antt the retries of apps/http-server/src/services/cache.rs.
--
-- WebSocket/ is apps/ws-server/src/hooks.rs: Metadata.antt has verified_seat_metadata and the requests to
-- lock and unlock; Rooms.antt has the sockets and rooms of packages/redis-conn/src/adapter.rs and Delivered.antt
-- is about who gets a message; Verified.antt, Current.antt and Accepted.antt what an accepted request says of the tables, together with
-- the requests of the admins and the slots of the gateway.
--
-- Accounts/ is apps/http-server/src/api/auth.rs and apps/http-server/src/api/admin/password_reset.rs: Users.antt
-- has signup, login and google_login, Password.antt reset_request and reset_confirm, with bcrypt, the encoding
-- of tokens and Google's answer as parameters; Login.antt and SignedUp.antt are about a login after a
-- sign-up, Tokens.antt and Reset.antt about the token of a reset.
--
-- LockServer/ is apps/lock-server/src/handlers_active.rs: Requests.antt has process_lock_request,
-- Sweep.antt the body of the loop of run_seat_layout_updater for the members of the queue that Redis
-- gave as due, Election.antt acquire_updater_leader_lock with its commands at times of their own, which
-- Leader.antt is about; Shrink.antt and Swept.antt are about what a sweep leaves in the queue, Answer.antt
-- about the answer of a request.
--
-- Notification/ is apps/notification-worker/src/consumer.rs: Worker.antt has process_messages for one
-- delivery, Settled.antt and Again.antt are about deliveries that come again.
--
-- Every function is total by structural recursion. The only fuel is that of the decimal digits of a
-- number in SeatLock/Route.antt, one more than the number, while each step divides by ten.
--
-- The retries of a cached command and the loops over rows need none.
--
-- Not modelled: the second lock (packages/redis-conn/src/cluster_lock.rs), the tasks of the
-- lock server (consumer_active.rs), the shows, layouts and tickets of the HTTP server, the search and
-- change-data services, the web client, and the client libraries of Redis, RabbitMQ, PostgreSQL and
-- MongoDB.
pub mod Common
pub mod Redis
pub mod SeatLock
pub mod Gateway
pub mod Outbox
pub mod Payment
pub mod Schedules
pub mod SeatMap
pub mod WebSocket
pub mod Accounts
pub mod LockServer
pub mod Notification
pub mod Examples
