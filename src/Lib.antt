-- ===== src/Lib.antt =====
-- A verification library for disquisition, a peer-to-peer chat application with screen sharing.
--
-- Protocol is src/common/drawing_protocol.cpp, the packets that draw on a shared screen: its numbers
-- (Protocol/Number: parseInt64, parseU32), its frames (Protocol/Frame: encode, decode) and its records
-- (Protocol/Records: parseScreenDraw, parseScreenErase, parseScreenLaser and their writers). A byte
-- string is a list of numbers; an output parameter with a Boolean result is an Option; the three
-- statuses of `decode` are the constructors of a result type that carries the message and what is left
-- in the buffer.
--
-- Images is src/desktop/image_transfer.cpp with the limits of include/common/media_limits.h:
-- splitImage (Images/Split) and ImageAssembler (Images/Assembler), whose map from sender and transfer
-- number to a partial image is an association list. The sort by starting time is an insertion sort.
--
-- Notifications is src/desktop/notification_rules.cpp (Notifications/Rules, Notifications/Pacer) and
-- src/desktop/notification_center.cpp (Notifications/Center), which asks the rules what a message
-- deserves, keeps the unread badge, and sends notifications through the pacer. A handler of the center
-- takes the state and what the toolkit would answer, whether the window is in view and what the clock
-- reads, and returns the state, with the calls of the notifier and the emitted signals as a list of
-- effects.
--
-- Mentions is src/desktop/mentions.cpp: mentionOf, which the notification rules build on, mentionQueryAt,
-- the name that is being typed, and findMentions (Mentions/Finding), which walks over the characters in
-- place of the jumps from one mark to the next. Qt's classes of characters and its comparison without
-- regard to case are parameters. Mentions/Attention relates the mentions to what the rules make of them.
--
-- Relay is the community side of the relay: the frames of include/community/wire.h (Relay/Wire) and
-- src/relay/community_router.cpp (Relay/Router, with its socket handlers and its timer in
-- Relay/Router/Events). A pointer to a session is a number; to read through a pointer to a session
-- that was deleted, which in the source is undefined, finds nothing here. An abort of a socket runs
-- the handler of `disconnected` at once, as Qt does. `registered_` is a list whose order stands for
-- that of the map. Whether a request's signature holds, Qt's reader of JSON, the random codes, and
-- what a socket has yet to write are parameters.
--
-- Drawing is src/desktop/screen_drawing.cpp but for its widgets, its painting and what only they show
-- (Drawing/Board: the segments and strokes; Drawing/Board/Lasers: laser pointers, tools and timers;
-- Drawing/Board/Colors) and src/desktop/screen_drawing_session.cpp (Drawing/Session, with `receive` in
-- Drawing/Session/Receive and the constructor's connections, the timer, and all that can happen to a
-- session in Drawing/Session/Events). A session holds its board; what `sendToPeer` sends is appended
-- to a list, and a signal of the board that the session is connected to is the call of its slot.
--
-- Community is src/community/model.cpp: the texts, profiles, endpoints and intents that it accepts
-- (Community/Model), and the passes of `rebuild`, which check the log (Community/Model/Log, with
-- `ancestor`), find who may do what (Community/Model/Authority) and replay the operations
-- (Community/Model/Replay); the state, with `fromJson` and `merge`, is in Community/Model/State, and
-- what members do in Community/Model/Changes. An object of JSON is the record of the values that the
-- code reads from it, an exception is `none`, and what Qt and OpenSSL answer (URLs, UUIDs, base64,
-- digests, signatures, sizes) is one parameter, a `Toolkit`. `QMap` keeps its keys in order where a
-- result depends on it: the log and the members.
--
-- Common holds what the parts share: Boolean tests on numbers, list lemmas, equality as an instance,
-- integers over the native numbers, and association lists.
--
-- Community/Node is src/community/node.cpp: its state, links and messages (Community/Node), saving
-- and sending (Community/Node/Base), the exchange of operations (Sync, Merging, Transfers), voice
-- (Voice), packets (Packets, Sending), admission (Admission, Invitations), `handle` (Handle), links
-- that open, read and end (Connect), the timer (Tick) and the commands (Commands). A link is a number
-- that the node looks up, in place of a pointer. What a handler does to a socket, to the store and to
-- the program is an effect in `out`, and what a socket does is an event of its own: in particular
-- `disconnected` after an `abort`. A handler reads the clock once. An exception is an outcome that
-- keeps the state of the node at the throw, and the handlers that catch it do so in the model; where
-- the model of the community only says that it throws, the text of the error is one text. A message
-- is the record of the values that the code reads, and what JSON, UTF-8, base64 and signatures do is
-- a parameter (`Network`, beside `Toolkit`). The validation of a snapshot in another thread is an
-- effect, and its end an event that is given the model that it started from. The remaining modules of
-- the folder are proofs: Keeps, Joining, Messages, Inputs, Connections, Timer, Packing and Calls pass a predicate through
-- each operation once, for all the invariants that use them, and Events lists what can happen to a node:
-- what its sockets do, the timer, the end of a merge, and each call of the program that is modelled.
--
-- Bounds and fuel. Lengths, clocks and counters are natural numbers; the protocol's 32-bit words are
-- taken apart and put together by division, and `parseU32` checks its range as in the source. The
-- loops of the source are structural recursion, but for seven on fuel: printing a number takes its
-- value plus one rounds, reading the fields of a frame as many as the frame has bytes, and splitting
-- an image as many as it has bytes; each round uses up a digit or a byte at least, and the round trips
-- show that the fuel suffices. The requests in a session's buffer take as many rounds as it has bytes,
-- and each frame has five at least; closing the router takes a round for each session. The batches of
-- an erasure take a round for each stroke, and each batch has one at least. The search for an ancestor
-- takes a round for each parent that the log names and two more: a round takes one operation from
-- those that are pending, and each operation makes its parents pending once.
--
-- Not modelled: the text of invitation links, the start of a node and its socket to the relay, the desktop's widgets and painting,
-- capture, codecs and audio, SQLite, OpenSSL and the sockets; of the image transfer, the preparation
-- of images and the pacing of frames. `QString::simplified` is a parameter of the notification text.
pub mod Common
pub mod Drawing
pub mod Protocol
pub mod Images
pub mod Mentions
pub mod Notifications
pub mod Relay
pub mod Community
