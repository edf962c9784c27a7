-- ===== src/Lib.antt =====
-- Hearty Rabbit is a server of photo albums. A browser or one of its own clients names what it wants by
-- a URL, says who it is by a session in a cookie, and the server keeps users, sessions, blobs and
-- albums in redis, which it talks to over connections that match replies with commands.
--
-- Which module models which part, paths from the root of the repository:
--   Url          src/common/hrb/URLIntent.hh and URLIntent.cc, class URLIntent. Types holds its members
--                and tables, Parse the constructor from a URL, Write `write_path`, `str` and the other
--                constructors. Pieces, Segments and RoundTrip follow a URL from `str` back through the
--                parser; Trim and Intents treat what the constructors make, Plain what a path holds.
--   Escape       src/common/util/Escape.hh and Escape.cc: Split is `split_left`, `split_right` and
--                `split_front_substring`, Url is `url_encode` and `url_decode`, Hex is `to_hex` and
--                `hex_to_array` over Boost's codec.
--   ObjectId     src/common/hrb/ObjectID.cc: the ID of a blob, 20 bytes.
--   StringFields src/common/util/StringFields.hh, RepeatingTuple.hh: named values in a text.
--   Cookie       src/common/util/Cookie.cc, UserId src/common/hrb/UserID.cc: the session of a request.
--   Permission   src/common/hrb/Permission.cc: who may see a blob.
--   Redis        src/server/net/Redis.hh and Redis.cc: Reply is the class of that name, Connection that of
--                its name, with a history of the callbacks given and called. Runs, Order, Reads, Closing,
--                Reach and Transaction prove what becomes of the callbacks.
--   Auth         src/server/crypto/Authentication.cc: Password is the callback of a log-in, Users are
--                `add_user` and `verify_user` with the keys of users in redis, the sessions are in Auth
--                itself. Store says what is relied on of redis; Renewal and Live are about sessions, Guests
--                about those of Authentication.ipp.
--   StringTemplate src/server/util/StringTemplate.hh and StringTemplate.cc: pages with gaps.
--   Scheduler    src/client/http/RequestScheduler.cc: the limit on the requests of a client.
--   Aggregated   src/common/util/AggregatedCallBack.hh: a callback for the last of some calls.
--   RedisKeys    src/server/hrb/RedisKeys.cc: the keys of blobs and albums in redis.
--   Renditions   class RenditionSetting of src/server/util/Configuration.hh and Configuration.cc. Served is
--                `rendition` of src/server/hrb/BlobFile.cc and `response` of src/server/hrb/BlobDatabase.cc:
--                which file of a blob is sent; Answered is about what is sent and what is changed. What
--                OpenCV throws and nothing catches is an outcome: no response is sent.
--   BlobInode    src/common/hrb/BlobInode.cc, the JSON of an inode, and, in Record,
--                src/server/hrb/BlobInodeDB.cc, the text that redis keeps of it.
--   Ownership    src/server/hrb/Ownership.cc and Ownership.ipp. Scripts has the Lua scripts that change
--                what a user has, Commands the members of the class that run them, Replies what callbacks
--                make of replies; Store says what is relied on of redis. Fields, Link, Unlink, Relist,
--                Cover, Move and Public follow the scripts through the keys; Albums holds the albums that
--                the class promises, Others what a call leaves alone; Invariant, Reach, Bounds and Visible
--                are about any calls, and about what a requester is shown. Query has the scripts that find
--                a blob and list the public ones, Scan the scan of the albums, with Once and Pages about
--                when its caller is called and with what; the list is that of
--                src/common/hrb/CollectionList.hh.
--   Handler      src/server/hrb/SessionHandler.cc and SessionHandler.ipp: Request is a request, with
--                src/server/hrb/BlobRequest.cc, Header finds out who sends it, Body decides what to do,
--                Blob what to answer when redis has replied, Repair is `validate_collection`,
--                which fills in timestamps in an album that is sent as JSON, and Serve is the part of
--                src/server/net/Session.cc that joins them. Publics is the page of public blobs. Owner and
--                Verified are about who may do what.
--   Collection   the map of blobs in src/common/hrb/Collection.cc, and the comparison of two albums in
--                src/client/hrbsync/CollectionComparison.cc.
--   Client       src/client/http/HRBClient.ipp and HRBClient.hh: the members of the client, and what they
--                do with a response. Exchange is src/client/http/GenericHTTPRequest.hh, the stages of a
--                request. Served, Forms, Asked and Albums join the client with the Handler: what the server
--                takes its requests for; Sessions is about log-ins and the answers to uploads, Downloads
--                about the blobs of an album, Stuck about requests that fail.
--   ImageContent src/server/image/ImageContent.cc: the square that an image is cropped to, and the middle
--                that src/server/hrb/BlobFile.cc falls back to. Sums, Totals, Chosen and Greatest follow
--                the points where the score changes, Weights counts what a window holds, Optimal joins them.
--   Prelude      what all of them share; Int is the integers. Tests: the theorems at fixed inputs, and runs.
--
-- How it is modelled. A byte is a number and a text the list of its bytes; a view that a function
-- shortens is returned with what is left of it. A stream is the bytes written to it. A member function
-- that changes an object returns the new object. The parts that run later, callbacks of reads, writes and
-- commands, are functions of their own, and what a callback does on a connection is the list of the
-- commands that it sends. Loops run along a list, or on fuel: the loop of `basic_find` has a round for
-- each byte of the text, which is enough since a round takes a byte; the loop that reports an error of
-- the reader has the rounds it is given, which are enough if there is one for each callback and these
-- send nothing then; `find` of a rendition calls itself, at most once if the default one is there.
-- A Lua script is a function of the database that tells whether it raised an error; what it changed
-- until then stays. A handler gives its answer as data: a response, or what it asks of redis, of the
-- blob database or of the web resources, with the user it does so for.
-- Decimal numbers in a cookie have 20 digits, which holds every count of seconds.
--
-- Parameters, as the code is not in the repository: Boost's hexadecimal codec, with the laws that its
-- documentation states, redis with the commands GET, TTL, SET and DEL in Auth, with HMSET and HMGET of users, and with sets, hashes
-- and lists in Ownership, where each key holds the kind of value that its name says, the modules cjson
-- and cmsgpack of its scripts, the JSON values of nlohmann's library, what OpenSSL derives from a password, the replies that hiredis reads from a socket, and random numbers. The server is built as a
-- release, so assertions are not in the model. Logs are left out.
--
-- A request of the client has a number, its place among all that were made; what Boost reports of its
-- operations, whether a file can be opened, and how a text is read as JSON are arguments. So are the
-- faces, eyes and features that OpenCV detects in an image, what it renders of it, what is in a file
-- after it was written, when a blob was taken by the file that is kept of it, and the sort of the
-- points, which may leave those at one position in any order.
--
-- Of redis it is relied on that it answers EXEC for the whole transaction or for none of it. A callback
-- that is called as a connection is closed sends no commands in the model.
--
-- A scan of the albums is given what redis replies to each HSCAN; with no reply left it waits for one.
--
-- Not modelled: the JSON forms of albums and of the lists of blobs, the pages and JSON that the session
-- handler makes of a result, the rest of the configuration, uploaded files, the formats of images, HTTP
-- and TLS, the command line and the graphical clients, and the libraries that the repository copies.
pub mod Aggregated
pub mod Auth
pub mod BlobInode
pub mod Client
pub mod Collection
pub mod Cookie
pub mod Escape
pub mod Handler
pub mod ImageContent
pub mod ObjectId
pub mod Ownership
pub mod Permission
pub mod Prelude
pub mod Redis
pub mod RedisKeys
pub mod Renditions
pub mod Scheduler
pub mod StringFields
pub mod StringTemplate
pub mod Tests
pub mod Url
pub mod UserId
