-- ===== src/Lib.antt =====
-- FRASS-F: face recognition attendance, on edge devices, an IoT backend and a web application.
--
-- How the parts interact. A device (edge/main.py) turns frames into results, sends them by
-- edge/comms/sync_client.py, and keeps in edge/sync/offline_store.py what the backend did not take.
-- The backend (backend/app.py) guards against replays, matches the embedding, and logs attendance.
-- The web application (app/) has accounts and logins, students with their faces, schedules, and
-- sessions in which marks are taken; fras_core/serialization.py writes the encodings that its workers
-- share.
--
-- Files, each with its children:
--   Base: lists, texts (code points), tables by key, dicts by text, decimal numbers, integers.
--   Edge.OfflineStore: edge/sync/offline_store.py. The queue, its bound, the file that `save` writes
--     and `load` reads, `flush` in batches.
--   Edge.SyncClient: edge/comms/sync_client.py. `send_result`, `send_batch` and the MQTT connection
--     over a network that is a parameter (`Network`).
--   Edge.EdgeDevice: edge/main.py. `_handle_result`, the nonce, one turn of the loop of `start`.
--   App: app/__init__.py, app/config.py, app/extensions.py, app/services/seed.py. `create_app` with the
--     Redis client over its contexts (`Startup`), and the default data (`Seed`).
--   Realtime: app/realtime/events.py. The rooms, and whom the broadcasts of `Attendance.Marks` reach.
--   EventQueue: app/services/event_queue.py. `Once` is about what raises, `Drain` about the end of
--     the stream.
--   Reports: app/services/export.py and the summary of app/api/reports.py. `Csv` is the writer of the
--     csv module, with a reader; `Html` is the table of the PDF.
--   Edge.DeviceConfig: edge/config/device_config.py. Defaults, file and environment, `merge`.
--   Edge.ConfigSync: `_sync_config` of edge/main.py, from the backend's configuration to the device's
--     file.
--   Edge.Pipeline: edge/inference/pipeline.py. The largest face, its crop, quality and liveness.
--   Liveness: app/services/liveness.py and app/services/antispoof.py. `Vision` is the quality, `Blocks`,
--     `Blink` and `Checks` the heuristic checks, `AntiSpoof` the model, `Detector` their fusion in
--     `analyze`; `Watch` is about sequences of frames.
--   Recognition: app/api/attendance.py, `_process_frame` and `recognize`: quality, liveness and
--     matching put together. The frame is processed in a thread without an application context, so
--     that a match raises (`Matches`), and nobody is marked (`Answers`).
--   Matching: the linear scan of app/services/face_engine.py (`_recognize_linear`).
--   Backend: backend/app.py. `State` has the tables and the caches; `Replay` is `check_replay`,
--     `Match` is `match_embedding`, `Results` is `_process_result`, `receive_result`, `sync_batch`;
--     `Devices` has their registration, configuration and health, `Keys` the API keys,
--     `Users` the registration of users, their verification and the logs, `Runs` any sequence of
--     such requests.
--   Attendance: app/services/attendance.py, app/api/attendance.py and app/models. `Sessions`, `Marks`,
--     `Status` (`_compute_status`), `Stats`,
--     `Ranges` (the rows of a day and of a range), and `Runs`, any sequence of requests.
--   Auth: app/auth and app/models/user.py. `Account`, `Login`, `Password` (registration, change of
--     password, second factor), `Session` (tokens and roles), `Admin` (app/api/admin.py:
--     changes and deletion of users, the pages of the audit log).
--   Students: app/api/students.py, with the memory of the face engine and the photos on disk.
--   FaceEngine: the encodings in memory and in Redis, app/services/face_engine.py and
--     app/services/engine.py.
--   Schedules: app/api/schedules.py and app/models/schedule.py.
--   Hardware: app/services/hardware.py.
--   Serialization: fras_core/serialization.py.
--   The modules named Tests hold runs on concrete inputs.
--
-- How state is modelled. A handler takes the tables and gives its answer and the tables as they are
-- committed; a raise is `none`, or the answer `server_error`, and what was not committed is dropped.
-- A query without an order reads rows in the order of insertion, and a new row has a key above all
-- others; the order of the audit log, which leaves entries of one time open, is a parameter of
-- `audit_log`. `create_app` takes the environment at the import of the configuration and the one
-- after `load_dotenv`. Photos that cannot be removed are a parameter of `delete_student`. Foreign keys are not enforced; unique constraints are. One request runs at a time. A clock
-- is read once in a request. Times are in microseconds, dates in days, scores in millionths.
--
-- Parameters, for code outside the repository: json, the network, the product of embeddings and
-- pgvector (`Backend`'s `Engine`), argon2 and werkzeug (`Passwords`), pyotp (`Totp`), Redis, base64
-- and the vision libraries (`Vision`), the bytes of numpy (`Vectors`), what the machine shows (`Machine`),
-- OpenCV and numpy on images (`Liveness.Vision`, `Edge.Pipeline.Runtime`), ONNX Runtime (`Onnx`), the
-- detection of faces (`Recognition.Engine`), floats of a configuration (`Floats`), Redis streams
-- (`Streams`), Flask-SocketIO (`Sockets`) and the writing of an event (`Writer`).
--
-- Bounds and fuel. The loop of `flush` and the digits of a number run on fuel: the loop on the length
-- of the queue and one more, since each turn takes at least one result or ends; the digits on the
-- number and one more. The loops over blocks of pixels run on the length of the image less 8, and each
-- turn goes on by 8. Numbers of `struct` have 32 bits, and a larger one raises.
--
-- Scores and weights of the liveness are exact fractions with a common denominator, where the code has
-- floats, and are rounded as `round` does where the code rounds.
--
-- Not modelled: floats beyond exact fractions (rates in percent, the memory limit of CUDA), image
-- processing, the making of tokens and cookies, rate limits, pages, mail, logging and metrics,
-- non-ASCII digits and letters in patterns and in `int`, threads, and the parts that only call a
-- library.
pub mod App
pub mod Attendance
pub mod Auth
pub mod Backend
pub mod Base
pub mod Edge
pub mod EventQueue
pub mod FaceEngine
pub mod Hardware
pub mod Liveness
pub mod Matching
pub mod Realtime
pub mod Recognition
pub mod Reports
pub mod Schedules
pub mod Serialization
pub mod Students
