-- ===== src/Lib.antt =====
-- us-stock-helper: pairing and device tokens, the HTTP surface, feeds, the universe cache, and the
-- checks on model output.
--
-- The parts, and the files that model them. In services/device_auth/src/us_stock_helper_device_auth
-- are single-use pairing codes and revocable device tokens. `store.py` is `DeviceAuth/Store` (`Rows`
-- its tables, `Codes`, `Attempts` and `Devices` its operations by the source's names, `Calls` the
-- transactions and their runs); `credentials.py` is `DeviceAuth/Credentials`; `service.py` is
-- `DeviceAuth/Service`; `errors.py` is `DeviceAuth/Errors`. The boundary that an HTTP request meets,
-- services/analysis_api/src/us_stock_helper_analysis_api/device_gate.py, is `DeviceGate`. It reaches
-- the service through the two calls of `DeviceAuthority`. In front of it, `http_app.py` of the same
-- package is `HttpApp`: `Config` the configuration, `Query` the parameters of a request, `Surface`
-- the routes, `Paired` whole runs of requests with the device service behind them. The analysis
-- service that answers a read is a parameter with a state of its own.
--
-- The feeds of news: in services/information_layer/information_layer, `models.py` is `Feeds/Events`
-- and `feeds/coordinator.py` is `Feeds/Coordinator` (`Steps` the sections that its lock protects and
-- their runs); its persistence is `Feeds/Snapshot`, with the file of
-- services/analysis_api/src/us_stock_helper_analysis_api/coordinator_state.py in
-- `Feeds/Snapshot/Stored`. `feeds/collector.py`, which asks the sources through the coordinator and
-- answers what they have said, is `Feeds/Collector`. The adapters that fetch and parse are a
-- parameter.
--
-- The cache of services/analysis_api/src/us_stock_helper_analysis_api/market_universe_cache.py is
-- `UniverseCache` (`Freshness` the sections under its lock and their runs, `Flight` these with the
-- callers that compute).
--
-- The checks on the output of a language model: in services/adviser_llm/src/adviser_llm,
-- `evidence.py` is `Adviser/Evidence` and `Adviser/Items`, `frameworks.py` is `Adviser/Frameworks`,
-- and `traceability.py` is `Adviser/Trace`, with its patterns in `Adviser/Tokens`. `re`, where it
-- asks for classes of Unicode, the date of an instant and `urlparse` are parameters. The calls that
-- get the output are `client.py`, as `Adviser/Client`, and `service.py`, as `Adviser/Service`; the
-- replies of the model are a function of the number of the attempt. `gating.py` is `Adviser/Gating`.
--
-- The older council of services/adviser_layer/adviser_layer is `Council`: `council.py`, with its
-- packets in `Council/Packet` and its constructors in `Council/Facts`, and `registry.py` as
-- `Council/Profiles`. The encoding of a packet as JSON is a parameter.
--
-- The score of a horizon, and the hard gates that a council cannot lift, are `scoring.py` of
-- services/analysis_core/us_stock_helper_core, as `Scoring`. Floating-point numbers are a type with
-- the operations of `Prelude/Doubles`; of their laws only that `<` is asymmetric, and the order of a
-- few literals, are assumed, and a sum adds from the left.
--
-- A request goes through the gate to a method of the service, and from there to transactions of the
-- store. A transaction is a function on the store: it takes SQLite's write lock first, so that the
-- threads and processes that share the file interleave as whole transactions, which are the runs of
-- `DeviceAuth/Store/Calls.antt`. One that raises or rolls back leaves the store that it met. A method
-- of the service is an `Action`: what its transactions have committed stays when it raises.
--
-- Conventions. A text or a byte string is the list of its code points or bytes. A time is a number of
-- microseconds from the least datetime, and `x < now - d` is written `x + d < now`, which is the
-- same for all integers; the `OverflowError` of a clock in the first day of year 1 is not modelled,
-- nor is the rounding of `total_seconds` to a double, which moves no whole second below centuries.
-- The clock's answer and the random draws are arguments. `hashlib.scrypt`, HMAC-SHA256,
-- `json.loads` and `ipaddress.ip_address` are parameters with no law assumed of them.
--
-- Fuel: `Prelude/Decimal.antt` prints a number by as much fuel as the number and one, and every step
-- divides it by ten. `Adviser/Client.antt` runs the loop of retries on one more step than the attempts
-- that are allowed. `Council/Packet.antt` runs the loop
-- that cuts a packet on one more step than its characters and facts, of which each turn takes some
-- away. All other recursion is on the
-- structure of a list or a text.
--
-- Not modelled: the set-up of the database file (permissions, journal mode, schema version), faults of
-- SQLite other than a violated primary key, the messages of errors, the checks that a stored value
-- has the column's type, numerals in digits that are not ASCII, the command line, URL parsing and
-- sockets, the text of prompts, and the other services.
pub mod Prelude
pub mod DeviceAuth
pub mod DeviceGate
pub mod Adviser
pub mod Council
pub mod Feeds
pub mod HttpApp
pub mod Scoring
pub mod UniverseCache
