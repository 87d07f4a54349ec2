-- ===== src/Lib.antt =====
-- WebX Engine: the remote desktop server's protocol and its clients.
--
-- The engine decodes the instructions that clients send, keeps a registry of the clients in groups of
-- one quality level each, and encodes the messages that go to the clients of an index mask. The
-- decoder and the encoder work on a byte buffer with aligned reads and writes. The registry gives each
-- client a random identifier and one bit of a 64-bit mask as its index, moves clients among groups by
-- the measured data rates, and pings them and removes those that do not answer.
--
-- Common and its children: names of the libraries, Boolean tests, results with `do`, signed and
--   unsigned 32-bit conversions, bits of 64-bit words, and an interface for the processor's floating
--   point numbers, of which nothing is assumed. WholeFloats fills it for the tests.
-- Buffer: src/utils/WebXBinaryBuffer.h. `write`, `append`, `read`, `read_string` (readSring) and the two
--   constructors `start` and `wrap`. Bytes has the byte order; Reading and Writing say where a read or
--   a write stands.
-- Instruction and Decoder: src/models/instruction and
--   src/transport/serializer/WebXInstructionDecoder.cpp. Decoder/Wire has the layout from the sender's
--   side, independent of the decoder.
-- Message and Encoder: src/models/message and src/transport/serializer/WebXMessageEncoder.cpp.
--   Encoder/Layout has the content of each message, independent of the buffer's offsets.
-- Quality: src/models/WebXQuality.h and .cpp, with the floating point numbers of the table in
--   hundredths.
-- Bitrate and Client: src/controller/client/WebXClientBitrateCalculator.h and WebXClient.h. A method is
--   a function from the state before to the state after, with the clock's reading as an argument.
-- Rectangle and Damage: src/models/WebXRectangle.h and WebXWindowDamage.h, the union of rectangles and
--   the merging of damaged areas. Coordinates are integers, and no `int` overflows.
-- Roster: a shared pointer to a client, as the client's identifier and index, and lists of them.
-- Coverage, Transfer, Handler and Window: src/models/WebXWindowCoverage.h and
--   WebXWindowImageTransferData.h, src/controller/client/WebXWindowQualityHandler.h and .cpp, and
--   WebXClientWindow.h. A window as the clients of a group see it: its damage, its checksums, and the
--   handler that adapts its quality to what was sent of it and to its coverage. Coverage/Sweep has
--   the sweep that computes a coverage, with the standard library's sort and multiset written out.
-- Group: src/controller/client/WebXClientGroup.h and .cpp, the clients and the mask of one quality
--   level. Windows has the windows of a group; the function that grabs and sends an image is a
--   parameter. Shown and Updates say what becomes of the windows, Kept that the clients stay as they
--   are, and Views gives the groups as a map from identifiers to levels.
-- Registry: src/controller/client/WebXClientRegistry.h and .cpp. The state is the mask, the clients, the
--   groups, the random numbers to come and the messages sent. Rounds has the loops through all clients,
--   Windows what is passed on to the groups, and Steps the calls but `disconnectAll` as one data
--   type. Index has the
--   search for a free index,
--   Ledger and Invariant what each call keeps, Branches and Clients their lemmas, and Calls, Placing
--   and Pings what the calls do. Refinement has the abstract registry, a map from identifiers to levels.
-- Queue: src/utils/WebXQueue.h, the queue of the messages to publish; Order has its order.
-- DataBuffer: src/utils/WebXDataBuffer.h, with the sizes that the allocator gives as a parameter and a
--   null pointer where it refused one; Growth has its growth. 64 rounds are enough for a size of at
--   most 2 ^ 63, since the capacity doubles.
-- Image: src/image/WebXImage.h, the sizes and checksums. The checksum of bytes is a parameter.
-- Controller: src/controller/WebXController.h and .cpp. The display, its mouse and its events are an
--   interface with a state of their own. Instructions, Windows and Loop have what the controller does,
--   Answers, Sent, Settled and Invariant what comes of it. The messages of the registry's state are all that are
--   handed to the gateway.
-- Text: texts as lists of bytes, src/utils/WebXStringUtils.h and WebXHexUtils.h, with what is used of
--   `std::stoi`, `std::stoul` and the formats of fmt written out in Numbers.
-- Version: src/models/WebXVersion.h.
-- Session: the session identifier and the coverage function of src/models/WebXSettings.h, as they are
--   read from texts.
-- Gateway: src/gateway/WebXGateway.h, over any state that its functions change.
-- Connector: src/transport/WebXClientConnector.h and .cpp, the commands of a client and the loop. What
--   the polls of the sockets give is an argument, and so is the formatting of an error, which may throw.
--   InStep has the replies of the loop, Handshake what a client gets that connects and disconnects, and
--   Registered the same over the client registry.
-- Subscriber: src/transport/WebXClientInstructionSubscriber.cpp, the loop that hands the decoded
--   instructions to the gateway, up to a frame for which the decoder throws, which ends the process;
--   Delivered has which they are.
-- Publisher: src/transport/WebXClientMessagePublisher.h and .cpp, the loop that encodes and sends the
--   messages of its queue, with the calls of other threads, in steps that each touch one of `_running`
--   and the queue. InFlight and Runs have what is between the queue and the socket, Fifo the order of
--   what is sent.
-- Keyboard: src/display/input/WebXKeyboard.cpp, the key events that a keysym becomes, for any map of a
--   layout; Layout has the keys of the modifiers, Pressed and Released what is held. A depth of two
--   calls is enough for a map whose modifiers are plain keys.
-- Mouse: src/display/input/WebXMouse.cpp, the position and the buttons; Held has what X11 holds down.
--
-- The search for a free index has 64 rounds of fuel, one for each bit: a 64-bit mask that is not full
-- has a free bit among them. A number is printed with 64 digits of fuel, which are enough for any
-- 64-bit word. The loop that draws an identifier runs through the random numbers given, and gives none
-- when they run out; it ends wherever a number to come is no client's. The calls that handleKeySym makes
-- of itself have their depth as fuel. All other loops run through lists, those of the transport through
-- what the polls of the sockets give. Offsets and sizes of the buffer keep their wrap-around at 2 ^ 32,
-- times at 2 ^ 64. A lock makes each call of the registry one step, and two threads a sequence of steps.
-- Sending on a socket is taken not to fail.
--
-- Not modelled: the windows of the X11 display, the layouts and cursors that are loaded from it, the
-- image libraries, the sockets of ZeroMQ and the starting of threads, logging, the reading of the
-- environment, the generated tables of key symbols, and the copies of spdlog and crc32.
pub mod Common
pub mod Buffer
pub mod Instruction
pub mod Decoder
pub mod Quality
pub mod Message
pub mod Encoder
pub mod Bitrate
pub mod Client
pub mod Roster
pub mod Group
pub mod Registry
pub mod Coverage
pub mod Transfer
pub mod Handler
pub mod Rectangle
pub mod Window
pub mod Damage
pub mod Image
pub mod Controller
pub mod Queue
pub mod DataBuffer
pub mod Text
pub mod Version
pub mod Gateway
pub mod Connector
pub mod Keyboard
pub mod Mouse
pub mod Subscriber
pub mod Publisher
pub mod Session
