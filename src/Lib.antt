-- ===== src/Lib.antt =====
-- goalpaca: a verification library for the ASCOM Alpaca server, its image transport and its
-- simulated devices.
--
-- An Alpaca server answers HTTP requests for astronomical devices. A request names a device and a
-- member (server/httpserver.go); its parameters are read (server/transaction.go), it passes the
-- gates on the connection and on a busy device, and the handler of the device's type
-- (telescopePut, cameraPut) calls the gates (server/gates.go), which check its arguments against
-- the driver's capabilities and state, and then the driver's method. The simulated devices (sim)
-- are drivers whose state is computed from the clock when it is read. Errors carry ASCOM numbers
-- (alpaca/errors.go), and images travel as ImageBytes messages (alpaca/imagebytes.go).
--
-- The modules, and the files that they model:
--   Prelude and its children: Boolean tests, lists and integers over the native numbers, loops.
--   Float: float64 as a parameter, a record of its operations, and the rules of IEEE 754 that the
--     proofs use, as the record Ieee. Float.Exact is an instance of both, for the examples.
--   Alpaca.Errors: alpaca/errors.go (NewError, ErrorNumberFor), with the chain that errors.As walks.
--   Alpaca.ImageBytes.Word: encoding/binary's little-endian uint32, and the conversions of ints.
--   Alpaca.ImageBytes.Transpose: transposeElems, transposeInto and transposeBand. The bands run as
--     whole goroutines, in an order that the parameter Runtime chooses.
--   Alpaca.ImageBytes.Header, Alpaca.ImageBytes.Codec: the header, EncodeImageBytes,
--     EncodeImageBytesError, DecodeImageBytes and ParseImageBytesHeader. A byte is a number.
--   Server.Gates: the refusals of server/gate.go and, in Devices, Camera and Telescope, the gates of
--     server/gates.go. A driver is a record of its answers to the methods that a gate calls, and
--     fmt.Sprintf is a parameter.
--   Server.Transaction: the parameters and the envelopes of server/transaction.go. strings, strconv
--     and time.Parse are the parameter Library, and a map is an association list.
--   Server.Handlers: cameraPut of server/camera_http.go, telescopePut of
--     server/telescope_http.go, and the PUT handlers of server/rotator.go, focuser.go,
--     filterwheel.go, dome.go, covercalibrator.go and switch.go, over a driver that is a record of
--     its methods. A switch on the member is a table of its cases. An event is such a request or a
--     call in the same process. Handlers.Keeps has what a handler keeps of a device.
--   Server.Http: handleDeviceAPI, handleGet and handlePut of server/httpserver.go, and devicePut and
--     devicePutValue of server/device_http.go, over the devices of a server as one driver. The registry
--     maps a type and a number to a reference, and a heap holds the device objects behind them.
--   Server.Op: the asynchronous operation of server/op.go.
--   Server.Registrations: Datagram, Record, Live and LocalPorts of server/discovery_registry.go. What
--     they use of net, bytes, strconv and encoding/json is the parameter Net.
--   Server.Relay: handleDiscoveryReply and the token bucket of server/discovery_relay.go.
--   Sim.Camera: the camera of sim/camera.go. Camera.Shot is the machine of three states that it
--     refines, Camera.Served the camera behind cameraPut.
--   Sim.Rotator, Sim.Dome, Sim.Focuser, Sim.FilterWheel, Sim.CoverCalibrator, Sim.Switch,
--     Sim.Telescope: the devices of sim. Each is a record of the fields of the Go struct; a method
--     takes the time `now` at which it reads the clock, in nanoseconds, and gives the new state,
--     with its result where it has one. A mutex makes each method one step, and a run is a list of
--     calls with their times.
--   Sim.Telescope.Parking: the simulated mount behind the gates of its requests.
--   Sim.Focuser.Served, Sim.FilterWheel.Served, Sim.Dome.Served, Sim.CoverCalibrator.Served: these
--     devices as drivers behind their PUT handlers.
--   Sim.Telescope.Served: the simulated mount as a driver behind telescopePut.
--   Examples: the theorems at concrete values.
--
-- Loops are structural, or run over a list (the bands, the ranges of an axis, the polls of
-- waitSlewDone); for_loop of Prelude.Loop counts with the number of steps as its fuel, which is the
-- distance between the bounds and so enough. An int keeps its wrap-around where a sum or a product
-- of a client's numbers may reach 2^63 (the length check of the decoder, the readout rectangle, the
-- duration of a pulse, the shades of the camera's frame, the choice of the parallel transpose). An
-- index past the end of a slice is a panic, and so is ImageFrame's make above 2^48 bytes, the limit
-- of a 64-bit machine. The makes of the codec are as long as a slice that exists, or 44 bytes longer;
-- running out of memory is not modelled.
--
-- Not modelled: of server, the GET handlers, the PUT handler of the observing conditions, the
-- image route, the log, the setup pages, settings and reload; the network of discovery, the
-- requests of Registrations.Relay, client, the package registry, devicemain, conformance and the
-- tools of cmd; the gate of the sensor names; of sim, the safety monitor and the observing
-- conditions, and the names of the switches. Requests are served one after the other: two that
-- interleave inside a handler, or inside the polls of a method that waits for its slew, are not.
-- The ID, the name and the description of a device are left out of its record.
pub mod Prelude
pub mod Float
pub mod Alpaca
pub mod Sim
pub mod Server
pub mod Examples
