-- ===== src/Lib.antt =====
-- The plugins of the CDC badge: the snake game, the thermal printer, the web server, the calculator,
-- the data of the Matrix client, the BLE scanner, the MQTT publisher of pins, the LED strip, the
-- reading of feeds and the name badge.
--
-- Snake models plugins/snake/src/game.rs. Its state is the record Game with the fields of the
-- struct; the operations `start` (Game::new), `steer` and `step` are functions on it, and the
-- random numbers are part of the state. `step` is `turned` (the buffered turn) and then `advance`
-- (the wall, the body, the move), as in the source. The child modules hold the proofs: Snake.Grid
-- (cells of the grid), Snake.Spawn (the food), Snake.Steering (the buffer), Snake.Valid (the
-- invariant), Snake.Body and Snake.Stepping (one move), Snake.Play (whole games), Snake.Speed.
--
-- ThermoPrinter models plugins/thermo_printer/src. ThermoPrinter.Proto is proto.rs: the checksum,
-- frames, status notifications, row encoding and the stream of a job. Its children: Proto.Bytes
-- (single bytes), Proto.Frames (a reader of frames), Proto.Notify (notifications), Proto.Runs (run
-- lengths), Proto.Pixels and Proto.Rows (the pixels that a frame shows), Proto.Jobs (a whole job),
-- Proto.RowFrames (ranges of rows). ThermoPrinter.Raster is raster.rs and ThermoPrinter.Wire is
-- wire.rs: the payloads in which other plugins, the network and the serial line hand over jobs; what
-- Raster parses is what Proto prints. ThermoPrinter.Drive is the sending of a job in lib.rs
-- (`begin_send`, `refill_send_buffer`, `pump_send` and the handlers of notifications and write
-- completions), on top of Proto: the state is the record Sending with the fields of Drive::Sending,
-- and what the Bluetooth host answers is an argument of each step. Drive.Stream accounts for the
-- bytes that are still owed, Drive.Pump is one tick, Drive.Transfer any sequence of events.
--
-- ThermoPrinter.Layout is `paginate` of layout.rs, with the wrapping as an argument;
-- ThermoPrinter.Wrap is `wrap_text`, with Wrap.Visible and Wrap.Lines about the lines it gives, and
-- ThermoPrinter.Vcard is `vcard_to_lines` and url.rs. Wrap, Vcard and Matrix.Recovery take a text as
-- its characters (Base.Chars).
--
-- Web.Http models plugins/webserver/src/http.rs: request lines (Http.Lines), percent escapes
-- (Http.Decode) and the names of the served files (Http.Names).
--
-- SciCalc models examples/sci_calc/src. SciCalc.Numbers is the arithmetic and the formatting of
-- numbers over a type of floating-point numbers, the record Float: f64, its text forms and libm are
-- no code of the repository, so what is proved holds of every such record. SciCalc.Entry is the
-- text that is typed, SciCalc.Engine the methods of `Calc`, SciCalc.Keys the dispatch of actions.
-- SciCalc.Numeral and Numeral.Text are the numbers that a user types and their text, SciCalc.Typing
-- the keys that type, SciCalc.Calculation and Evaluation whole calculations, SciCalc.Actions the
-- tape, SciCalc.Errors the errors.
--
-- Matrix models the data of plugins/matrix/src: json.rs, model.rs, and what a sync does to the rooms
-- (`sync_now` in lib.rs, after the decryption). The JSON parser is a package, so its values are the
-- record Json, a parameter of every function that reads one.
-- Matrix.Text is the encoding of strings, Matrix.Events the events of a room, Matrix.Sync the answer
-- to a sync request, Matrix.Keys the answers about logins and keys, Matrix.Escape reads encoded
-- strings back (URLs with the decoder of the web server), Matrix.Distinct and Matrix.Members are about
-- the members of a room, Matrix.Merge is the merge of a sync and Matrix.Rooms its invariant.
-- Matrix.Recovery is the recovery key of crypto.rs, Matrix.Base58 what its decoder computes.
-- Matrix.Store is store.rs on a badge whose storage, random numbers and cryptography are the record
-- Host; Store.Secrets is about the secrets, Store.Key about the key of the account, Store.Sealing and
-- Store.Sealed about what is kept sealed.
--
-- Scanner models the device table and the list of plugins/ble_scanner/src/lib.rs: `merge` folds a
-- scan round into the table with `observe`, which makes room with `evict_one`, and then ages
-- the devices that were not seen. Scanner.Table is the invariant, Scanner.Rounds what a round
-- leaves, Scanner.Eviction the eviction. Scanner.Screen is `render`, the edits of the list on the
-- screen; Screen.Place and Screen.Order are about the order of its rows.
--
-- GpioMqtt models examples/gpio_mqtt/src/lib.rs. GpioMqtt.Packet is the packets, GpioMqtt.Session the
-- session with the broker (`mqtt_connect`, `mqtt_send`, `mqtt_keepalive`, on a record of the answers
-- of the host), GpioMqtt.Polling the reading of the pins and the publishing of changes. Reader is a
-- reader of packets, Reader.Lengths and Reader.Packets are about what it reads; Delivery is about the
-- writing of a stream, Retry about new sessions, Online about a broker that is there, and Follower,
-- Rounds and Following about a subscriber.
-- The loops of writing and of the remaining length run on the number of bytes left and on the length.
--
-- GroveLed models plugins/grove_led/src/lib.rs: the settings and what changes them, in Render the
-- frames of the effects. GroveLed.Valid is about the settings, Dither about dithering, Frames about
-- single frames, Running about any sequence of ticks and actions.
--
-- NewsFeed models examples/news_feed/src/lib.rs, the entries of a feed; NewsFeed.Plain is about the
-- text without tags, NewsFeed.Entries about the loop over the entries.
--
-- NameBadge.Rng models plugins/name_badge/src/rng.rs, the random numbers of the effects, and
-- NameBadge.Dither dither.rs, their rasters; Dither.Bits and Dither.Pixels are about single pixels,
-- Dither.Reveal about a raster.
--
-- Base holds shared names, Boolean tests, list lemmas, machine words, integers, the xorshift step
-- and the check of UTF-8. Bytes and words are ℕ with the wrap-around written out; a `str` is its
-- UTF-8 bytes; a usize has the 32 bits of the badge; a panic (a slice out of range) is `none`. Loops
-- over ranges are structural recursion on the number of rounds left; `push_run` runs on its length,
-- which its loop lowers by at least one per round; the loop of `refill_send_buffer` has two rounds,
-- and Drive.Stream shows that it returns within them.
--
-- Not modelled: drawing, menus, Bluetooth connections, files and sockets, which are calls of the
-- badge's host, and the plugins that consist of those.
pub mod Base
pub mod GpioMqtt
pub mod GroveLed
pub mod Matrix
pub mod NameBadge
pub mod NewsFeed
pub mod Scanner
pub mod SciCalc
pub mod Snake
pub mod ThermoPrinter
pub mod Web
