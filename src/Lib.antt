-- ===== src/Lib.antt =====
-- The back end of a music player: an HTTP server in C++ that keeps its accounts in MySQL, signs
-- its tokens with jwt-cpp, and sends verification codes by mail.
--
-- The parts of the program and their files:
--   src/database/DBManager.{h,cpp}    Pool (the deque of connections), Pool/Opening (constructor,
--                                     destructor and the one instance), Pool/Threads (the pool
--                                     among threads), App (getConnection and SqlConnGuard, as
--                                     `get_connection` and `with_connection`)
--   src/database/UserDAO.{h,cpp}      UserDao, with src/models/user.h in Models; UserDao/Spec is
--                                     what it promises, over a list of accounts
--   src/database/PlaylistDAO.{h,cpp}  PlaylistDao, with src/models/{playlist,song}.h in Models;
--                                     PlaylistDao/Spec is what it promises, over playlists and
--                                     their songs
--   src/database/PlayHistoryDAO.{h,cpp}  PlayHistoryDao, with src/models/playhistory.h in Models
--   src/utils/PasswordUtil.{h,cpp}    Password
--   src/utils/JWTUtil.{h,cpp}         Jwt
--   src/utils/EmailUtil.{h,cpp}       Email, and Email/Reading (readCallback)
--   src/utils/JsonUtil.{h,cpp}        Http, with the messages of src/common/net.h
--   src/utils/Config.{h,cpp}          Config (the settings, and loadFromFile)
--   src/server/VerifyService.{h,cpp}  VerifyService (the table of codes as a value), and
--                                     VerifyService/Calls (the methods), VerifyService/Threads
--                                     (verifyCode among other threads)
--   src/handlers/UserHandler.{h,cpp}  UserHandler (what the handlers share), and below it Codes,
--                                     Account and Avatar; requests one after another are in
--                                     Mailing, Welcome, Profile, PasswordChange, Binding and Picture;
--                                     Shown is the JSON of an account
--   src/server/Router.{h,cpp}         Router
--   src/server/Server.{h,cpp}         Server
--   src/server/main.cpp               Routes (setupRoutes), Main (main); signalHandler is an event
--                                     of Server
--   src/server/Session.{h,cpp}        Session
-- A function keeps the name of its method, in snake case: `create_user` is UserDAO::createUser.
--
-- How they interact: Session hands a request to the router, the router to a handler, and the
-- handlers call UserDAO, VerifyService, JWTUtil and the file system. All of them are actions on
-- one `World`: what the singletons hold, the database, the network and the disk, and the values
-- that the clock and the random device are going to return. An action gives a value, an exception
-- that a caller may catch by its type, or `fault`, which is undefined behaviour such as a call
-- through a null pointer. What was written before an exception stays written. Main loads the
-- settings, opens the pool, makes the server and runs its loop, whose turns clean up the table of
-- codes.
--
-- The libraries (MySQL connector, nlohmann::json, jwt-cpp, libcurl, OpenSSL, the file system,
-- std::regex) are the record `External`, a parameter of every definition that calls them, and
-- Boost.Asio's addresses the record `Asio`. What a theorem relies on is a hypothesis of its own:
-- `UserTable` is what MySQL documents of the statements of UserDAO, `PlaylistTable` of those of
-- PlaylistDAO, `FileLaws` that a file keeps what was written to it, `IsIssued` that jwt-cpp reads
-- and accepts a token that it signed, `DumpsAscii` that nlohmann::json dumps ASCII, `IdFits` that
-- a token with a good signature carries no id beyond int. Examples has libraries for which they
-- hold.
--
-- Numbers: an int that the program prints and reads is an integer in its range, and `atoi` of a
-- number beyond it is undefined behaviour; times are integers of nanoseconds. The one fuel is that
-- of `Decimal.emit`, a round for each digit: `suc n` rounds for the number n, which has at most as
-- many digits. Loops run over lists, over the length of a code, or over the size of the pool.
--
-- What other threads do shows in the pool, as the connections that they give back while a call
-- waits, or, in Pool/Threads, as steps in any order, and in the table of codes between the two
-- halves of verifyCode. A refused statement changes what the connector's record says it changes.
-- Log output, and the Content-Length that Beast computes, are left out.
--
-- The server is the members that change, with the io_context as its flag of `stop`. What happens
-- while its main thread sleeps is a list of events, a turn of the loop each: a completed accept,
-- or the signal, with the accepts that complete while it closes the acceptor. Handlers run one at
-- a time, also where several threads run them. An accepted connection is counted; Session has its
-- conversation.
--
-- Not modelled: a signal that is delivered to a worker thread or comes before the loop of run,
-- what two threads do to the database at the same time, and a code that is written while
-- verifyCode reads it. The handlers for playlists and history, and Config::loadFromJson, are only
-- declared in the repository; constants.h has nothing that the modelled parts use.
pub mod Prelude
pub mod External
pub mod Pool
pub mod Config
pub mod App
pub mod Models
pub mod Password
pub mod Decimal
pub mod UserDao
pub mod PlaylistDao
pub mod PlayHistoryDao
pub mod Http
pub mod Jwt
pub mod Email
pub mod UserHandler
pub mod Router
pub mod Routes
pub mod Session
pub mod Server
pub mod Main
pub mod Examples
pub mod VerifyService
