-- ===== src/Lib.antt =====
-- Verlihub is a hub of the Direct Connect protocol, written in C++. This library models the parts of
-- its core that decide what happens to a message, a user or an address, and proves that they are
-- correct.
--
-- How the parts interact. A client's line is received into a message parser, which recognises its
-- command and splits it into chunks; before a handler uses the chunks, its guards test the length and
-- the syntax of the message and the rights of its sender, and close the connection if one fails. Users
-- and temporary bans stand in hash tables, by the hash of a nick or by the number of an address;
-- expired bans are removed by the hub's timer. Timers and counters of events over the last period
-- limit how often something may happen and measure the traffic.
--
-- A connection gets a zone and a lock when it comes in, or, through the TLS proxy, with the $MyIP that
-- tells its address. It logs in with a key for its lock, a nick and its version; the hub counts it, in
-- all and by its zone, from its nick on. Collections of users keep lists of nicks, of MyINFO texts and
-- of addresses, and send to the users that a message is meant for. Plugins are asked by lists of
-- callbacks, which the plugin manager keeps. Texts are escaped before they are sent, and replaced, cut
-- and converted by the text helpers.
--
-- Files:
-- - Base, Run: names, lists, texts and integers that the others share, and the results of code that
--   may run into undefined behaviour, or not end within the turns of its fuel: `fault` stands for both,
--   and a theorem with `Returns` excludes them.
-- - HashArray: src/thasharray.h. A pointer to an item is the list of the items that hang on it; the
--   virtual calls OnAdd and OnRemove are recorded in the order they are made. HashArray/Chain is
--   `sItem`, HashArray/Buckets and HashArray/Table are the invariant (each item in the bucket of its
--   hash, once), HashArray/Add, Remove, Resize and AutoResize the operations, HashArray/History any
--   sequence of them, HashArray/Unique the plain array below.
-- - Message: src/cprotocol.{h,cpp}, src/cmessagedc.{h,cpp} and src/cprotocommand.cpp. Message has
--   `cMessageParser` (chunks, their strings and `SplitOnTwo`), Message/Command the words of the
--   commands, Message/Split `Parse` and `SplitChunks`, Message/Search and Message/SplitLaws the laws
--   of splitting, Message/Recognise and Message/Parsed what `Parse` recognises, Message/ConnectToMe,
--   Private and Single commands from the line to their chunks.
-- - Guards: `CheckProtoLen`, `CheckProtoSyntax` and `CheckUserRights` of src/cdcproto.cpp. The
--   translation and the formatting of texts are parameters, and log lines are left out. Guards/Words
--   relates the names in the second `switch` to the limits in the first one, Guards/Refusals a message
--   that is received to its limit.
-- - Address: `Ip2Num` and `Num2Ip` of src/cbanlist.cpp and `isLanIP` of src/cdcproto.cpp, with what
--   they use of sscanf and ostream, on a machine that stores the low byte first.
-- - Bans: the temporary bans of src/cbanlist.{h,cpp}. Bans/Lookup and Bans/Expiry relate one
--   operation to a map, Bans/Calls any sequence of them. `tolower` depends on the locale, and is a
--   parameter.
-- - Timing: src/ctime.h, src/ctimeout.h and src/cmeanfrequency.h. Timing/Normal and Timing/Moments
--   relate seconds and microseconds to numbers of microseconds, Timing/Timeouts is the timer,
--   Timing/Window, Loops, Sums and Setup are the ring of counts.
-- - Users: src/cusercollection.{h,cpp}, and what of src/cuser.{h,cpp} it reads. Users/Maker is
--   `ufDoNickList` and its kin, Users/Broadcast the `SendToAll` family; Users/Listing, Invariant,
--   Listed and Users/Delivery, Received relate the lists and the calls to the users of a map, over
--   the events of Users/History and the answers of Users/Answers.
-- - Plugins: src/tchashlistmap.h, src/ccallbacklist.{h,cpp} and src/cpluginmanager.{h,cpp}. Plugins
--   has the maps, the callback lists and `CallAll`, Plugins/Registry loading and unloading;
--   Plugins/Sound and Steps are the invariant, Plugins/History any sequence of events,
--   Plugins/Calls single calls. A plugin is its address; what a shared library makes and throws, and
--   what a plugin answers, are parameters.
-- - Strings: src/stringutils.cpp. Strings/Replacing and Strings/Loops are about replacements,
--   Strings/Lines about the number of lines, Strings/Letters about case and paths.
-- - Escapes: `EscapeChars`, `UnEscapeChars` and `Lock2Key` of src/cdcproto.cpp. Escapes/Texts is about
--   strings, Escapes/Key about keys.
-- - Login: src/cconndc.{h,cpp}, with `CloseNice`, `CloseNow` and `SetSecConn` of src/casyncconn.cpp,
--   `addConnection` of src/casyncsocketserver.cpp, `OnNewConn` and the counters of users of
--   src/cserverdc.{h,cpp} and `DC_Key`, `DC_ValidateNick`, `DC_Version`, `DC_MyHubURL` and `DCC_MyIP` of
--   src/cdcproto.cpp. Login/Zones is `SetGeoZone` and `ResetGeo`, Login/Arrivals how a connection comes
--   in and $MyIP, Login/Messages the other handlers, Login/World all connections with the events.
--   Login/Locks is about the locks, Login/Counting, Steps, Handlers, Entering, Others, Sending, Focus
--   and After are the invariant from one handler up to one event, Login/History any sequence of events,
--   Login/Proxies a connection of the proxy against a direct one, Login/Keys the test of a key. What accounts, plugins, guards and sockets decide is a record of
--   decisions with each message and each arrival; the country of an address is a parameter. A zone is
--   absent where the source has -1.
-- - Tests: runs on concrete inputs, and the theorems at such inputs.
--
-- Machine integers. Counters of the tables wrap at 2 ^ 32, hashes of texts at 2 ^ 64, counts of a
-- window at the width of its type; the conversions of the parser between `int` and unsigned types are
-- written out. The line counter of `LimitLines` overflows at 2 ^ 31, and the model faults there.
-- Numbers of a `long` in a moment are taken as they are.
--
-- Fuel. The first loop of `Adjust` gets twice `mResolution` turns and the second one the number of
-- parts that are not filled, which is as often as each can go on; out of turns, the model faults.
-- Twenty digits hold every `unsigned long`. The loops that replace in a text, and those of the
-- escapes, get as much fuel as the text is long, and with a new text that contains what it replaces
-- no fuel is enough. All other loops are structural.
--
-- Not modelled: sockets and the event loop, the database and the configuration in it, the code of the
-- plugins and the script interface, the consoles of operators, translations, and the handlers of all
-- other messages behind their guards. Of the text helpers, files, MD5 sums and numbers of type
-- `double` are left out; of the login, the texts to the user, the time-outs, the share and the
-- password. Conversions of a time from and to `double` are left out, and with them `GetMean`; so are
-- the destructors, and `Clear` of a hash table, which only they call. Memory is freed only in the
-- plugin manager, where a list of the deleted plugins stands for it.
pub mod Base
pub mod Run
pub mod HashArray
pub mod Message
pub mod Timing
pub mod Address
pub mod Bans
pub mod Guards
pub mod Users
pub mod Plugins
pub mod Strings
pub mod Escapes
pub mod Login
mod Tests
