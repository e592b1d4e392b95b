-- ===== src/Lib.antt =====
-- DumaisLib: a JSON library (json/), utilities (utils/), a WebSocket server (websocket/), a web
-- server (webserver/) and a REST engine on top of it (rest/).
--
-- How the parts interact: a TCP client and a WebSocket connection each keep the data that they have
-- to send in a ring of utils/MPSCRingBuffer.h, from which the server's thread takes it. What a
-- WebSocket receives goes to the handshake of websocket/HTTPProtocolParser.cpp until the protocol is
-- switched, for which it needs SHA-1 and Base64, and then through the frame parser of
-- websocket/WSProtocolParser.cpp. The web server judges a request by its sessions, its passwords and
-- MD5, and hands it to a listener, whose late answers go through a ring as well. The REST engine reads
-- the parameters of a query and answers with a JSON tree.
--
-- * Json models json/. Json.Scan, Json.Number and Json.Property are `Parser` (Parser.cpp):
--   `removeSpaces`, the searches for a closing brace, bracket and quote, `getValue` and `getPair`. A
--   `char*` is the text with its NUL at the end; a search that would read behind that has a result of
--   its own (`overrun`), and so has a read there (`out_of_bounds`). Json.Node, Json.Print, Json.Parse
--   and Json.Edit are `Object`, `List` and `Value`: the tree, `stringify`, the loops of `parseObject`
--   and `parseList`, `addValue`, `addObject`, `addList`, the setters and `generateKey`. Json.Root is
--   the class `JSON` (JSON.cpp), which forwards to the tree that it holds, and Json.PathQuery is
--   `JSONPathQuery` with `matchNode`, for which `std::regex` and `std::stoi` are parameters; Walking
--   below it relates a query to the path that it writes. Json.Moving has the pointers of roots that are
--   moved, Json.Files `parseFile` and the conversions to numbers. An `unordered_map` is an
--   association list: its order stands for the order of iteration, which C++ leaves open.
--   Json.Escape is `escapeString` and `unEscapeString`. The proofs about texts that `stringify` prints
--   go through the tree's text without spaces (Json.Compact, Json.Spaces, Json.Closing, Json.Values,
--   Json.Join, Json.Rounds, Json.Steps, Json.RoundTrip).
-- * Utils.RingBuffer models `put` and `get` as one thread runs them; Utils.RingBuffer.Refine relates a
--   ring to the queue that it holds. Utils.RingBuffer.Producers models producers and a consumer that
--   run at once, a shared access at a time: each sees the accesses of the others in the order in which
--   they are made, which the plain accesses of the source leave to the compiler and the processor.
--   `Move` and `Take` are the steps of `put` and `get`, `Reach` the states that they lead to; Invariant,
--   Frame, Writes, Moves, Takes and Order below it have the proofs. The reservations are numbered
--   there, which the program does not do.
-- * Utils.Hash models utils/Hash.cpp, sha1.cpp, sha256.cpp and md5.cpp: Blocks is how each of them cuts
--   and fills its input, Padding relates that to the padded message, Hex is `toHex`. Utils.Base64
--   models `Base64::encode`, with the bytes that it reads behind its data as an argument.
-- * WebSocket.Frame and WebSocket.Parser model WSProtocolParser.cpp, with the arithmetic of a 64-bit
--   `size_t` and with the sign of `char` as an argument. WebSocket.Connection models WebSocket.cpp once
--   the protocol is switched; time is an argument, and the messages that the handler was called with
--   are a field. WebSocket.Handshake models HTTPProtocolParser.cpp, and WebSocket.Upgrade
--   `checkHTTPBuffer` and `processData` of either protocol; the user's handler is an argument.
--   Requests, below the handshake, has its buffer, Headers, Opening and Reading the texts of
--   requests, Accept and Switching the switch of the protocol. WebSocket.Server models what WebSocketServer.cpp does with the results
--   of `accept` and `recv`, Working below it the loops of `work` and of `processSend`, Closing what
--   becomes of connections that are closed and Silent what goes out on them. WebSocket.Clients has the
--   frames of clients, WebSocket.Delivery what the loop makes of them, WebSocket.Stall and
--   WebSocket.Sizes the data that the code does not handle.
-- * Web.Client models the sending side of webserver/TcpClient.cpp and the loop of
--   `TcpServer::processSend` for one client, on any sequence of results of the socket's `send`;
--   Web.Sending has the bytes that are still to be sent. Web.Response models HTTPResponse.cpp,
--   HTTPBufferedResponse.cpp and `WebServer::sendResponse`; Web.Chunks relates what is handed to the
--   client to the header and the content. Web.Request models HTTPRequest.cpp; Web.Auth the sessions
--   and the digest authentication of WebServer.cpp, with the times and random numbers that the calls
--   read as arguments, and Web.Serving what a message, an error of the framing and a late answer lead
--   to. Sessions, Login, Challenge and Passwords below Web.Auth, and Web.Answers, have the proofs.
--   Web.Framing models HTTPFramingStrategy.cpp and `TcpClient::onReceive`, which cut what a client
--   sends into messages (Web.Framing.Messages), and Web.Query models HTTPParser.cpp. Web.Engine models
--   TcpEngine.cpp, the settings of TcpServer.cpp and `initServer` of SecureSocket.cpp. Web.Matching is a search for the framing's patterns
--   on which it is run.
-- * Web.Observer puts the web server on the clients that TcpServer.cpp keeps: what its handlers, late
--   answers included, do to the state that both have. A client has a number for its pointer, by which
--   the web server knows it, and stands in `clientList` under its descriptor. Web.TcpServer models
--   `processAccept`, `processReceive`, `processSend`, `stop` and the loop of `run`, on any results of
--   `accept`, `read` and `send`; `Ending` has a result of its own for what follows the use of an
--   iterator that has been erased. The observer's calls in one `onReceive` follow each other behind
--   it, since they leave what it reads; what other threads do stands between the rounds of the loop.
--   Peers, Known, Answering and Sent below Web.Observer, and Connected, Runs, Turns, Failing and
--   Replying below Web.TcpServer, have the proofs.
-- * Rest.Parameters and Rest.Engine model rest/: `RESTParameters`, `RESTCallBack::call`,
--   `addParam`, `RESTEngine::addCallBack`, `removeCallBack` and `invoke`. `std::regex_match` is a
--   parameter, and so is the user's function of a callback. Rest.Describe models `getDescription`,
--   `getSwaggerDescription`, `documentInterface` and `documentSwaggerInterface`; Removing and Swagger
--   have proofs, and Rest.Stored what a map has after values have been stored one after the other.
-- * Prelude has the names and lemmas that the parts share, Prelude.Maps maps from numbers.
--
-- Fuel: `parse` runs on three times the length of the text and three more, which is more than the
-- calls that the text of a printable tree nests; `generateKey` on one round more than the object has
-- members; `sendResponse` on one round more than the response has bytes; the loop of `processData` on
-- fuel that the theorems take as an argument, since on some data it does not end.
--
-- `processAsyncQueue` runs on one round more than the ring has slots, a path query on one round more
-- than it has steps, and `onReceive` on as many rounds as there are messages.
--
-- Not modelled: the calls of sockets, epoll, threads and OpenSSL, whose results are arguments;
-- reading a file, whose bytes are an argument; `std::regex`, `atoi`, `atof` and `std::stoi`, which
-- are arguments where they are used; freeing memory; logging, and what MD5 prints.
pub mod Prelude
pub mod Json
pub mod Utils
pub mod WebSocket
pub mod Web
pub mod Rest
