-- ===== src/Lib.antt =====
-- V6Chat: a chat program for Windows in C++, over IPv6 between peers and over XMPP servers.
--
-- The window program runs Lua, which calls the kernel. The kernel keeps the users (kernel/User), sends and
-- receives messages between peers (kernel/Sender, kernel/Listener) with socket_interface, keeps a pool of
-- the messages that wait for an answer (WaitACKMsgSender), shows unread messages (kernel/UnreadMsg), keeps
-- lists of the files on offer and received (kernel/FileList), and stores profiles and chats in SQLite
-- through db_interface, whose SQL texts c_util/v6string.c builds. A message from a peer reaches the kernel
-- in a callback of socket_interface; the pool's thread sends unanswered messages again, and a second thread
-- looks after the users who are online.
--
-- Which file models which part:
--   Ack/Pool         kernel/Sender/WaitACKMsgSender.cpp: AddMsg, DeleteMsg, FindMsg, TraverseAllMsg
--   Ack/Order        the numbers of the messages; Ack/Sweep, Ack/Drain: passes over the pool
--   User/Info        kernel/User/UserInfo.h, P2PUserInfo.h, ServerUserInfo.h
--   User/Presence    SetState, CheckOnline, UpdateProfile; User/Keeping: the message that keeps a peer online
--   User/UserList    kernel/User/UserList.cpp: the finders, AddUser, AddUsers, UpdateUserDisplay
--   User/Change      UpdateUser, UpdateUserState, UpdateUserPort, DeleteUser, TraverseAllUsers
--   User/Loading     Init, Store, StoreInDB; User/Stored: a user to the database and back
--   User/Chat        RecordText, RecordChatText, UpdateChatContent, GetChatContent, ShowChatContent,
--                    UpdateChatFile, GetLocation, GetUser; User/Queue: the order of the texts
--   User/Identity    who a user is; User/Entering, User/Sound, User/Calls: what the operations keep;
--   User/Profile     fields, ports and freshness of users
--   Inbox/Unread     kernel/UnreadMsg/UnreadMsgList.cpp; Inbox/Asked: kernel/User/TempUserList.cpp
--   FileList/Sent, FileList/Received    kernel/FileList/SendFileList.cpp, RecvFileList.cpp;
--                    FileList/Numbering, FileList/Downloads: their numbers and states
--   Socket/Datagram  socket_interface/socket_interface.cpp: multicast_string, send_udp_string,
--                    send_udp_string_by_socket; Socket/Ledger: what they give back and answer
--   Socket/Stream    send_binary_data, receive_binary_data; Socket/Framing: what arrives
--   Socket/Connection  send_tcp_string and its variant, tcp_child_listen_thread,
--                    receive_small_file_by_tcp_socket; Socket/Faults, Socket/Files: whole and cut off
--                    send_small_file_by_tcp_socket; Socket/SmallFile: a small file across
--   Peer/Kernel      the lists of the kernel as one state, the libraries as one record, procedures
--   Peer/Sender      kernel/Sender/ClientMsgSender.cpp: the messages; Peer/Transfer: GetFileMsg, SendFileMsg;
--                    Peer/Callbacks: the callbacks of the pool's messages
--   Peer/Listener    kernel/Listener/ClientMsgListener.cpp: the handlers of datagrams; Peer/Chat: the one of
--                    a chat text; Peer/Texts: its marks; Peer/Dispatch: messages over TCP, the two listeners
--   Peer/Answering   kernel/LuaV6Chat3App.cpp: AddFriendAck, where a peer asked
--   Peer/Runs        steps of the whole kernel; Peer/Keeping, Peer/Laws, Peer/Dispatched, Peer/Handlers,
--                    Peer/Invariant: what every procedure keeps; Peer/Strangers, Peer/Requests, Peer/Asking,
--                    Peer/Marks, Peer/Attempts, Peer/Faults: who comes in, requests, marks, files, faults
--   Handles/Counting kernel/Handle.h; Handles/Freed: the counts; Handles/Owned: the objects; Handles/Once: any
--                    run of handles
--   Own/Info         kernel/User/MyInfo.h, MyInfo.cpp; Own/Row: update_myProfile, get_myProfileById and
--                    get_myProfileByName of db_interface; Own/Written: the row that the statement
--                    of update_myProfile makes; Own/Stored: a profile to the database and back;
--                    Own/Numbered: the number of its row
--   Server/Info      kernel/Server/ServerInfo.h, ServerInfo.cpp; Server/ServerList: ServerList.cpp
--   Server/Events    kernel/Listener/ServerMsgListener.cpp; Server/Sender: kernel/Sender/ServerMsgSender.cpp;
--                    Server/Registered: the numbers of the servers; Server/Reports: texts and transfers
--   Text/Concat      db_interface/c_util/v6string.c; Text/Replace: what its functions compute
--   Database/Statements  db_interface/db_interface.cpp: the SQL of insert_peerProfile, update_peerProfile;
--                    Database/Literals: what SQL reads in it
--   Database/Connection  what every function of db_interface does around its statement; Database/PeerRow,
--                    Database/Profiles: the tables of peers; Database/Servers: the servers, insert_myProfile;
--                    Database/Chats: insert_chatItem, get_chatItems; Database/Mine: the own profile;
--                    Database/Agreed: its answers and those of Own/Row; Database/Filled: rows without NULL;
--                    Database/Calls, Database/Held: any calls of them all; Database/Values: the row that the
--                    text of an insertion makes, as SQL reads it
--   History/Paging   kernel/V6Chat3App.cpp: GetChatHistory; History/Pages, History/Turning: what a page shows
--   Xmpp/File        xmpp_interface/XmppFileTransfer.h, XmppFileTransfer.cpp: the handlers of a byte stream;
--                    Xmpp/Threads: sendFileThread, recvFileThread; Xmpp/Table: the table of files, and
--                    XmppFT.cpp; Xmpp/Sending, Xmpp/Arrival: a file sent and received; Xmpp/Runs, Xmpp/Keyed,
--                    Xmpp/Named: any order of handlers and threads
--   Bridge/Stack     the stack of Lua; kernel/LuaV6Chat3App.cpp is Bridge/Readers: what hands the lists of the
--                    kernel to Lua; Bridge/Servers: the servers; Bridge/Desk: image, screen, clipboard;
--                    Bridge/ServerFriends: friends on a server; Bridge/Chats: files and texts of chats;
--                    Bridge/Requests: what changes the kernel; Bridge/Listing: what Lua reads;
--                    Bridge/Friends: the answer to a request
--   Base, Text, Text/Decimal, Text/Quote, Numbers, OrderedMap, Windows: what the parts share: lists, texts
--                    as lists of character codes, decimal numbers, SQL literals, integers, std::map, and
--                    the messages posted to windows
--   Tests            the theorems at small inputs
--
-- How state and operations correspond: a class with one instance is a record of its fields, and a method
-- is a function from the record to its result, the record after the call and, where it acts outside, the
-- list of what it did (Event, Post). Each method locks its class, so a call is one step, and any order of
-- calls of several threads is a list of calls. The clock (GetTickCount) is an argument and stands still
-- during one call; its differences are taken on 32 bits. An int is an integer without bounds, but what
-- atoi gives, which is the nearest int of 32 bits, as Windows documents; unsigned
-- integers are naturals, with the wrap at 2 ^ 32 written out where the sources let them wrap. A pointer
-- that may be NULL is an Option. A Handle in the list of users is the user itself: the list holds one
-- Handle of each user and changes users only through it.
--
-- A handler of a peer's message is a procedure (Peer/Kernel): from the lists to the lists after it and what
-- it did outside, or to none where it does not return, since an exception of JsonCpp or a null pointer ends
-- the program or a socket never answers. Handlers run one at a time; where one sleeps, the calls of other
-- threads on the received files are an argument.
--
-- A function of db_interface is a session (Database/Connection): from what it holds to its answer and what it
-- holds after it. A handler or a thread of a file over XMPP acts on the record of that file, and the
-- table of the files on all of them; each is one step, and none is a pointer that was never set or is NULL, or a
-- thread that still runs. A function that Lua calls leaves values on the stack and returns how many of them are
-- its results.
--
-- What is not the program's own is a parameter: JsonCpp's texts, WinSock's answers (a record of answers, or
-- a list of replies of send and recv, one for each call), the disk, the rows that SQLite hands out and the
-- numbers that it gives, the rounds of the loops that ask gloox, the conversions of V6Util, which windows are
-- open, and the server list.
--
-- Fuel and ends of lists: replacestr runs on fuel, and one round more than the text has characters is
-- enough where the search text is not empty. The socket loops run on the list of replies: a list as
-- long as the data is enough where each call moves a byte, and a list that ends is a call that still waits.
-- The loop of GetChatContent takes a round for each text and one more; the loop of sendFileThread runs on the answers of gloox, two more than
-- there are whole blocks in the file, where none fails but that of an empty piece.
--
-- Limits: a text or an event for a user who is not in the list throws, and the null Handle that users[uid]
-- enters before is not in the list that a procedure leaves, since the program ends there. DeleteMsg takes a
-- message out before its callback acts, where the sources erase it behind the callback, by an iterator that the
-- callback may have made invalid. A member of a JSON text is looked up in any value, where JsonCpp refuses a value
-- that is no object.
--
-- Not modelled: opening and closing the listeners, photos and search results of servers, XmppClient and
-- XmppClientInner, which pass calls between gloox and the kernel, the functions of the bridge that only call
-- Windows, and the window program; the vendored libraries (JsonCpp, libpng, libjpeg, gloox, SQLite), which
-- the sources only call.
pub mod Ack
pub mod Base
pub mod Bridge
pub mod Database
pub mod FileList
pub mod Handles
pub mod History
pub mod Inbox
pub mod Numbers
pub mod OrderedMap
pub mod Own
pub mod Peer
pub mod Server
pub mod Socket
pub mod Tests
pub mod Text
pub mod User
pub mod Windows
pub mod Xmpp
