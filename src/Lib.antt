-- ===== src/Lib.antt =====
-- The core of the omarchy-hardware MCP server (mcp/omarchy_hardware): the code that decides what a
-- language model may reach, and the protocol code underneath that decision.
--
-- The program. The server offers tools over hardware. Each tool passes its arguments through
-- policy.py, which compares them with the settings of config.py and charges a rolling budget, and
-- only then talks to a device, after a record in the log of audit.py. The MING tools reach an MQTT
-- broker with the client of mqtt_lite.py, and InfluxDB with the queries and lines of ming.py; the GPIO
-- tools reach the pins of a host over ssh, with gpio_ssh.py; ws_lite.py carries the Slack bridge.
--
-- Which file models what.
--   Common: texts as lists of code points, dictionaries, bits, and Python's codecs and character
--     tables as records that the definitions take (Common.Utf8 with the law that decoding undoes
--     encoding, Common.Unicode).
--   Errors: errors.py. A `ToolError` that is raised is the `err` of a Result.
--   Config: the records of config.py.
--   Policy: policy.py. Policy.Ports has the serial ports and the boot loader volumes on a file system
--     that is a record of functions, Policy.Weintek and Policy.Ming the allowlists, Policy.Budget the
--     rolling budgets on a clock in ticks. Policy.Ming takes the URL parser of the standard library
--     and its address test as a record.
--   Mqtt: mqtt_lite.py. Mqtt.Topic has the topic rules, Mqtt.Wire the encoder, Mqtt.Client the state,
--     the transport and the framing, Mqtt.Publish, Mqtt.Subscribe and Mqtt.Connect the operations.
--     A connection is a script: the chunks that recv will return, a deadline that passes within a packet, a loss, an
--     end of file, and whether each send succeeds. An operation is a function from the client's state
--     to its outcome and its state; publish and subscribe also take readings of the clock.
--   Settings: config.py. Settings.Load has load, from what comes of opening and parsing the file;
--     Settings.Security, Settings.Weintek and Settings.Ming the sections, Settings.Fields and
--     Settings.Urls the fields, Settings.Toml the values that tomllib returns. What raises is an
--     Outcome, which tells a ConfigError from Python's TypeError.
--   Serial: serial_session.py. Serial has the state and the draining thread, Serial.Read and
--     Serial.Expect the calls that wait. A wait is a moment: a reading of the clock and the turns of
--     the thread that follow it; a call takes a list of moments and is `waiting` when they are over.
--     Serial.Manager has the registry of sessions, Serial.Query clear, write, query, status and close.
--     Serial.Expect.Stream says which bytes are lines, without the buffer that expect takes them from.
--   Ids: ids.py. Ids.Tables and Ids.Boards have the tables, Ids what looks them up.
--   Wiring: wiring.py on a plan that is parsed. Wiring has the tables and the names of the pins,
--     Wiring.Rules the rules for one connection, Wiring.Check the whole plan. A message is a
--     constructor of Kind; Python's floats are a record of the operations that the check uses.
--   Bridge: bridge.py. Bridge has the counters and a turn of the thread with what the environment
--     answers in it, Bridge.Registry the registry, whose locked parts are single steps.
--   Audit: audit.py. Audit.Verify has verify and _read_head on the lines of the log, Audit.Chain the
--     appends and what each process remembers, Audit.Json the objects with what json, SHA-256 and the
--     codec are taken to do. The appends of all processes are one list, in the order of the lock.
--   Journal: journal.py. Journal.Entry has the keys, the labels and the entries, Journal.Store the
--     files and the calls, Journal.Spec an account without files that they are compared with. A file
--     that cannot be read is `damaged`, which one that is larger than MAX_FILE_BYTES is too; how many
--     bytes an entry has is a parameter. The copies of ELF files are left out.
--   Flux: the queries of ming.py. Flux.Literal has flux_string, Flux.Query build_query with the times
--     and durations it takes, Flux.Schema build_schema_query, Flux.Reads the rule by which a string literal reads, and
--     Flux.Outside what stands outside the literals.
--   Line: the line protocol of ming.py: _lp, _field_value and build_line, whose tags and fields are sorted
--     lists of pairs; it ends before the line is encoded. Line.Head reads the head of a line.
--   Csv: parse_csv of ming.py, on the lines that Python's csv reader yields or raises on. Csv.Tables has
--     the tables of a reply as they are written.
--   Flash: flash.py. Flash.Token has the upload tokens, on a clock in ticks; Flash.Sketch the checks of
--     an FQBN and of a sketch directory; Flash.Artifact the digest of a build, which is a tree of files;
--     Flash.Upload upload_sketch, with what the environment answers in a record and what it does as a
--     list of events, and Flash.Upload.Board what touches the board. compile_sketch is left out.
--   Ws: ws_lite.py. Ws.Client has the state, the clock and _recv_exact on a script of the socket,
--     Ws.Frame the frames, Ws.Receive recv_text on fuel: one round more than there are bytes to read,
--     since a round that goes on has taken two. Ws.Frame.Server is a server's reading of a frame,
--     Ws.Receive.InTime counts the readings of the clock once the deadline has passed.
--   Gpio: gpio_ssh.py and the GPIO tools of server.py. Gpio.Remote has the commands over ssh and what is
--     kept between calls, Gpio.Pins the operations on pins, Gpio.Tools the tools. What the hosts and the
--     audit log answer is a list for each call; what happens is a log with the latest event first.
--     Gpio.Lawful says which logs are lawful.
--   Server: the tools of server.py that write to a serial port: serial_write, serial_query and mpy_exec.
--     Server has the checks, the budget that is kept between calls and the log of what was announced,
--     handed over and noted; what the device makes of a payload is a function. The sessions and the
--     bridges that there are come with each call, since other tools change them in between.
--
-- Bounds and fuel. The loop of _encode_length has fuel 4, enough below 128 ^ 4. The loops that wait
-- for an acknowledgement go over the readings of the clock that they are given, one for each packet;
-- with one at or after the deadline among them they are over. The rounds of collect are a list that
-- the environment gives; after its last round the clock is past the deadline. A scan of expect has one unit of fuel more than the buffer has
-- bytes, since a line has a byte at least. The decimal digits of a number, in Settings.Urls, have the
-- number and one.
--
-- Not modelled: the text of messages and hints, the contents of exceptions of the operating system,
-- TLS contexts, threads other than as sequences of steps, and the tools of server.py other than those
-- of Gpio and Server. Of the modules that are not named above, some only run external programs or
-- format data; slack_bridge.py, boards.py and the calls of ming.py over HTTP and MQTT have no model.
pub mod Audit
pub mod Bridge
pub mod Common
pub mod Config
pub mod Csv
pub mod Errors
pub mod Flash
pub mod Flux
pub mod Gpio
pub mod Ids
pub mod Journal
pub mod Line
pub mod Mqtt
pub mod Policy
pub mod Serial
pub mod Server
pub mod Settings
pub mod Wiring
pub mod Ws
