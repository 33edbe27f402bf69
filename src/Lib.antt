-- ===== src/Lib.antt =====
-- Lemoniscate, a server for the Hotline protocol: its wire format, the managers of its shared state
-- and the path from a connection's bytes to the transactions that are dispatched.
--
-- The parts, from the bottom up, with the files that model them:
--
--   Wire           include/hotline/types.h: big-endian integers and byte arrays, and the copies
--                  into and out of a buffer that C writes as memcpy. hl_read_u16 is read_u16.
--   Field          src/hotline/field.c: hl_field_t is Field; hl_field_deserialize, _serialize,
--                  _scan, _decode_int and _decode_obfuscated_string are the functions of the
--                  same names.
--   Transaction    src/hotline/transaction.c: hl_transaction_t is Transaction, a header and a list
--                  of fields. The encoder and decoder call those of Field, as in the source.
--   Session        src/hotline/server.c: handle_new_connection's reading of the login is
--                  read_login; process_client_data for a connection without encryption is the
--                  function of the same name, its loop is pump, and serve calls it for each arrival
--                  of bytes, as the event loop does. They call Transaction and Conn.
--   Conn           src/hotline/platform/tls_openssl.c: hl_conn_read_full and hl_conn_write_all.
--   Access         include/hotline/access.h, src/hotline/access.c: permission bitmaps, the classes
--                  of accounts and the names of permissions.
--   FilePath       src/hotline/file_path.c: paths on the wire and below the file root.
--   Chat           src/hotline/chat.c: the manager of private chat rooms, a list of 64 slots.
--   ClientManager  src/hotline/client_manager.c: the connected clients and the counter of ids.
--   User           src/hotline/user.c: entries of the user list.
--   Handshake      src/hotline/handshake.c: the exchange that opens a connection.
--   FileResume     src/hotline/file_resume_data.c: where an interrupted transfer goes on.
--   FlatFile       src/hotline/flattened_file_object.c: the envelope of a file in transfer.
--   FileTransfer   src/hotline/file_transfer.c: the transfers that wait for their connection.
--
--   Crypto         src/hotline/chacha20poly1305.c: ChaCha20, Poly1305 and the AEAD of RFC 8439. Words
--                  are numbers below 2 ^ 32 with the wrap of each sum written out.
--   Hope           src/hotline/hope.c: RC4, the MACs, the choice of algorithm and cipher, the
--                  verification of logins, the keys, and the two transports. Hope.Stream is the RC4
--                  transport, whose machine is hl_hope_decrypt_incremental; Hope.Frame is the AEAD
--                  one, which calls Crypto. Session.Sealed is the loop over its frames.
--                  Hope.Reader is the reader of file transfers over AEAD frames; its connection is
--                  the list of the bytes to come, and malloc is a parameter.
--
-- Conventions. A byte is a number; where a theorem needs it below 256 it says so. A buffer is the
-- list of the bytes that are really there, and the length that a caller states is an argument of
-- its own. A C function that returns -1 is `fail`, one that would reach outside its memory is
-- `fault`, and a theorem that something is not `fault` is one of memory safety. Unsigned
-- arithmetic wraps where the source's types wrap, `% 2 ^ 16`, `% 2 ^ 32` or `% 2 ^ 64`, and the
-- width of size_t is the argument Platform. The allocator is the argument malloc, which says for
-- each size whether it serves the request. Each call of a manager runs under that manager's mutex,
-- so it is one step from a state to a state, and the state is passed on explicitly. Random ids are
-- arguments.
--
-- Fuel. pump takes fuel for its rounds, of which each consumes at least the 22 bytes of a header;
-- the number of bytes in the buffer, which process_client_data gives it, is enough, as a theorem
-- below shows. split_from takes fuel for
-- the characters of its string and its caller gives one more than there are.
-- The loop of hl_hope_decrypt_incremental gets two rounds for each byte and one more, which a theorem
-- below shows to be enough; aead_pump takes fuel for its frames; the loops of Crypto get the number of
-- bytes, of which each round takes one at least. The reader of file transfers gets the bytes asked
-- for and the bytes to come: each round copies one or consumes a frame.
--
-- The hash functions of HOPE are the platform's, not part of the repository: they are the fields of
-- Hashes, and theorems that need the lengths of their digests have IsPlatform as a hypothesis.
--
-- Not modelled: the event loop, the assembly of HOPE's negotiation reply with its failures, the
-- framing of connections with RC4, the handlers of transactions, the news, the accounts, the configuration, logging and the operating system's files and sockets, of which the
-- framing loop and the login reader need only the bytes that arrive.
pub mod Common
pub mod Wire
pub mod Field
pub mod Transaction
pub mod Access
pub mod FilePath
pub mod Chat
pub mod ClientManager
pub mod Session
pub mod User
pub mod Handshake
pub mod FileResume
pub mod FlatFile
pub mod FileTransfer
pub mod Crypto
pub mod Hope
pub mod Conn
