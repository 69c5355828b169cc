-- ===== src/Lib.antt =====
-- The network library and the game of footscreen: how packages are framed, queued, dispatched and
-- synchronised between a server and its clients, and how the game proceeds.
--
-- Parts, from below, with the files that model them (paths of the repository on the right):
--   Base           names of the libraries, tests, lists and integers over the native numbers
--   MessageData    uist-game/MessageData.h, MessageData.cpp: the package with its header and buffer
--   Actions        what the network classes ask of boost::asio, signal and log
--   Logging        uist-game/Logging.h, Logging.cpp: the lines of the log
--   Session        uist-game/NetworkServerSession.h, NetworkServerSession.cpp: one connection
--   Handlers       uist-game/MessageTypes.h, MessageHandler.*, GameNetworkInterface.*: the dispatch
--   Message        uist-game/Message.h, Message.cpp: synchronised objects
--   Server         uist-game/PlayerProfile.*, GameNetworkServer.*: the players of the server
--   Client         uist-game/NetworkClient.*, GameNetworkClient.*: the client's connection, its
--                  thread (Client/Running) and what arrives of a session (Client/Delivery)
--   Floats         the machine's floats and the norms of OpenCV, as a parameter
--   Units          uist-game/GameUnit.*, GameObstacle.*: the pieces and their motion
--   Game           uist-game/Game.h, Game.cpp: the game, its levels and its score
--   Requests       uist-game/MoveRequest.*, HighlightRequest.*, NewPlayerID.*: messages sent once
--   GameServer     uist-game/GameServer.h, GameServer.cpp: what the server does with requests,
--                  how it loads a game (GameServer/Loading)
--   Calibration    Calibration.h, Calibration.cpp: the wizard before a game
--   GameClient     uist-game/GameClient.h, GameClient.cpp: the client's network and its game
--   Listener       uist-game/NetworkServer.*: the sessions that are accepted, and become
--                  players of the server (Listener/Accepting)
--   Framework      framework/DepthCamera.*, DepthCameraException.*, SkeletonTracker.* and
--                  KinectMotor.*: the devices
--   Touch          Application.cpp: how a foot is found in the image of the depth camera
--   Following      Application.cpp: the unit nearest to a touch, and its orders
--   Application    Application.h, Application.cpp, main.cpp: the start of the program and its frames
--   Tests          the theorems applied to concrete inputs
--
-- How they interact: an object (Message) packs its members into packages (MessageData), which the
-- server (Server) hands to the sessions of its players, and a session (Session) queues and writes.
-- The other side (Client, or Session again) reads a header and then a body, and passes the package
-- to the handlers (Handlers), where each object has one that updates its members. The units of
-- the game (Units, Game) are such objects. A frame (Application) takes an image from the camera,
-- finds a touch in it (Touch) and has the client order the unit next to it about (Following), by a
-- request (Requests, Game/Moving) that the server answers (GameServer).
--
-- Conventions. A method becomes a function from the object's state to its new state with the
-- arguments first; its name is the method's in lower case. What a handler asks of boost::asio, what
-- it signals and the lines it logs are a list of actions that it returns (the texts are left out). A
-- pointer that may be null is an option or a Boolean that says whether it is set. Where the code
-- follows a null pointer, pops an empty queue or copies outside an array, the result is `none`, or
-- `fault` where the code can also throw an exception or wait for ever (`Result`): `waits` is
-- the loop of the client's `send` where the connection is never up.
-- Bytes, IDs, types and lengths are natural numbers; the wrap-around of the counters of 8 and 16
-- bits is written out, and the ranges of the header's fields are the record `IsHeader`. Calls
-- of external code are parameters: how the compiler lays out a header (`HeaderLayout`), the
-- pointer to a member (`Region`), the callbacks, the network that an object sends to, and the floats
-- (`Floats`), each with the laws that the theorems use. Arrays whose content the code never sets are
-- parameters too.
--
-- Bounds. The loops over lists are structural. `receive` counts reads: two for each package are
-- enough, one for its header and one for its body. `collide_rows` and `collide_row` count the rounds
-- of the two loops, which are as many as there are units. The loops of `copy_rows` and `copy_row` have
-- fuel for 65536 turns, which no 16-bit counter exceeds. The handlers of the client do not test the
-- socket; Client/Running/Served is about when it is set.
--
-- Not modelled: mutexes and condition variables (each handler is one step, and a thread is a step
-- relation where its order matters: Session/Write, Client/Running), how a name is resolved, what a
-- call of OpenCV does to an image, windows, and the texts that are logged.
pub mod Base
pub mod MessageData
pub mod Actions
pub mod Session
pub mod Handlers
pub mod Message
pub mod Server
pub mod Client
pub mod Floats
pub mod Units
pub mod Game
pub mod Calibration
pub mod Requests
pub mod GameServer
pub mod GameClient
pub mod Listener
pub mod Logging
pub mod Framework
pub mod Touch
pub mod Following
pub mod Application
pub mod Tests
