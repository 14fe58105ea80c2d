-- ===== src/Lib.antt =====
-- Atlas is a service that shows news, a clock and alerts on the e-ink screen of a jailbroken Kindle,
-- which it controls over SSH. This library models its Go code.
--
-- The parts and how they work together. `cmd/news-screen/main.go` reads a configuration
-- (internal/config), decides who may reach the server and wires the rest. The supervisor (internal/supervisor) is one goroutine that
-- takes commands from a channel: cron jobs (internal/scheduler) ask it to start, to stop and to run
-- a news pass; the gRPC server (internal/grpcserver) hands it alerts and tells it of new stories;
-- the workers it starts (news and alert, internal/alert) report their ends to it. It starts and
-- stops the display (internal/kindledisplay) and keeps at most one worker on it. The news worker
-- (internal/newsworkflow) shows the clock and, on a signal, a pass over the genres
-- (internal/dashboard), whose stories stand in queues in Redis (internal/news); the gRPC server puts
-- them there (internal/screennews). All draw through a device (internal/kindle), which composes
-- command lines for the Kindle's shell, and these go through ssh (internal/sshclient).
--
-- Which file models what:
--   Base and below      shared types and lemmas: integers, texts, tests, decimal and quoted output
--   Errors              error values of all packages, errors.Is, and results that may panic
--   Config              internal/config/config.go; Validity and Decision have what
--                       Validate accepts
--   Scheduler           internal/scheduler/scheduler.go; Window and Passes have its two halves
--   Alert               internal/alert/model.go and worker.go
--   Supervisor          internal/supervisor/supervisor.go. State: the loop's state, commands and
--                       effects; Workers: the helpers that start and stop display and workers;
--                       Loop: one function per command, reconcile, and loop itself; the other
--                       children hold one kind of property each
--   Kindle.Device       internal/kindle/commands.go; Link has the connection and its monad
--   Kindle.Shell        shellQuote of internal/kindle/clock.go; Words has what a shell reads
--   Kindle.Cache        the cache of prepared images of internal/kindle/story.go
--   Kindle.Rect, Clock  internal/kindle/clock.go: regions, the layout, the face, the loop
--   Kindle.Story        internal/kindle/story.go: layout, texts and RunStory; Fetch has the fetch of a
--                       picture and Tone the work on its pixels
--   Kindle.Genre        internal/kindle/genre.go
--   GrpcServer          internal/grpcserver: News, Accepted and Stored for AddNews, Alerts and
--                       Admission for AddAlert, StatusReport for GetStatus, Auth for auth.go and
--                       interceptors.go
--   News                internal/news: Redis has the interface of the server and the connection,
--                       Store and Genres the operations of store.go, with the adapter of
--                       internal/screennews/repository.go; Keys, Queue, Rotation, Pushing and
--                       Listing the proofs; Memory a small server that obeys the laws
--   Workflow            internal/newsworkflow/worker.go; Passes has what all runs keep to
--   Dashboard           internal/dashboard: Backdrops for backdrops.go, Cycle for dashboard.go;
--                       Wiring puts it on the store and the device; Files and Turns the proofs
--   Display             internal/kindledisplay/controller.go; Commands and Panel the proofs
--   SshClient           internal/sshclient; Arguments has how ssh reads them
--   NewsScreen          cmd/news-screen/main.go: the decisions of its start and the shutdown
--   App                 app.go; Cleanup has when the device is cleaned up
-- A Go method or function keeps its name in snake case (`putPreparedImage` is `put_prepared_image`),
-- with its Context suffix left off: the variant without a context is the one whose context never
-- ends. Tests and applications of the theorems stand in modules named Examples.
--
-- State and effects. The supervisor's functions take and return its state and list their effects in
-- order; what the display, the timers and the wait between attempts answer is a `World` per turn,
-- and a run of the loop is any list of commands with any worlds, so every interleaving of the
-- goroutines is some run. A device's operation takes an environment that answers each command as a
-- function of all that was sent before, and may end the context before any command. A store's
-- operation takes a network that answers, refuses or loses each request, and the dashboard an
-- interface of all that it calls. The news worker is a state machine over the events of its selects,
-- so its runs are all the orders in which these can come.
--
-- Numbers. An `int` or a duration is an integer without bounds (ℤ, or ℕ where the code keeps it from
-- being negative); no sum or product of the modelled code comes near the bounds of 64 bits for
-- screens and configurations of any practical size. The supervisor's run counters wrap at 2 ^ 64.
-- Texts are lists of bytes; case and white space are those of ASCII, but for strings.Fields, and the
-- characters of a text that is no valid UTF-8 are those of []rune. Floating point, which only the
-- tones of a picture use, is a type with operations of its own.
--
-- Fuel. `Scheduler.minute_marks` has 61 rounds for a loop that passes 60 in steps of at least one;
-- `Kindle.Rect.segments` has a round for each pixel of a line drawn in steps of at least six. All
-- other loops are structural; the attempts to start the display recurse on the attempts left.
--
-- Not modelled: the decoding, scaling and encoding of pictures; `Kindle.Story.Run` takes the picture
-- as a parameter; the wiring of the parts in cmd/news-screen/main.go and app.go, which read the
-- environment and call the parts; the connection to Redis (internal/redis); logging; generated code.
-- Parameters stand for floating point, time.LoadLocation, the cron library, url.ParseRequestURI,
-- Redis and its client, encoding/json, SHA-256, the files, net/http, the ssh process,
-- net.SplitHostPort and net.ParseIP,
-- crypto/tls, fresh operation IDs and the time.
pub mod Base
pub mod Errors
pub mod Config
pub mod Scheduler
pub mod Alert
pub mod Supervisor
pub mod Kindle
pub mod GrpcServer
pub mod News
pub mod Workflow
pub mod App
pub mod NewsScreen
pub mod SshClient
pub mod Dashboard
pub mod Display
