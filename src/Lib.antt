-- ===== src/Lib.antt =====
-- The hybrid FTP system: files over UDP by a stop-and-wait protocol, the server's uploads and
-- downloads on top of it, and the control connection between server and client.
--
-- Parts, and the files that model them:
-- + protocol/crc32.py in Protocol/Crc32: zlib's CRC-32 bit by bit; Crc32/Detect on one byte.
-- + protocol/packet.py in Protocol/PacketFlag and Protocol/Packet: RDTPacket, validate, has_flag.
-- + protocol/codec.py in Protocol/Codec, over Protocol/Struct for Python's struct module:
--   encode_packet gives the datagram and the packet with its checksum, which the code assigns.
--   Codec/Encode, Codec/Decode and Codec/Corruption hold the proofs.
-- + protocol/file_hash.py in Protocol/FileHash. SHA-256 is a parameter (Sha256).
-- + rdt/config.py and rdt/context.py in Rdt/Config and Rdt/Context.
-- + rdt/fault_injector.py in Rdt/FaultInjector. The random generator is a parameter (Random).
-- + rdt/sender.py in Rdt/Sender: send_file, send_and_wait, check_cancelled; the loop over the
--   attempts is recursion on the number of those left, maximum_retries + 1 at the start.
--   Sender/Emits, Sender/Transfer and Sender/Bursts: what is sent. Sender/Ends: how a call ends.
-- + rdt/receiver.py: Rdt/Reception has the receiver's state and what it sends, Rdt/Receiver its
--   receive_file, the helpers under their names. Receiver/Loop: the rule of its loop; Keeps, Files:
--   what a call leaves; Assembly, Delivery: the content; Progress, Returns, Success: polls that
--   bring the chunks make it return.
-- + Rdt/Port: the state that both ends share (context, log of what is sent) and their exceptions.
-- + Rdt/Link: sender, fault injector and receiver together.
-- + common/session.py and common/data_transfer.py in DataTransfer: Session, Target (the server's data
--   socket and its peer), Upload, Download, and the client's functions in Client.
-- + server/file_system.py in Server/FileSystem. The calls of os, time and pathlib are a parameter
--   (Os) over a type of disks. The file of users is the lines that its iteration gives. Unique: the
--   names of STOU.
-- + server/tcp_server.py in Server: get_ftp_path and resolve_safe_path in Paths; send_reply,
--   send_multiline_reply and start_transfer in Replies; parse_upload_metadata and the argument of
--   PORT in Metadata; the branches of handle_client_session in Commands, one function each (Login,
--   Folders, Status, Transfers); its loop and the worker of a transfer in Session. A branch gives a
--   Change: the session, the disk, the replies, the transfer that it starts. Commands/Allowed says
--   what a branch may change, Keeping, Changing and Starting prove it of each; Session/Phases is the
--   abstract machine of the replies, Members, Requests, Loop, Runs and Refines lead to it.
--
-- + client/control_client.py in Client: Responses reads the server's responses; Control has
--   FTPClient with the data channels, Control/Transfers handle_data_transfer, Control/Cli the
--   connection and a round of run_cli, Control/Keys its loop over single keys, with its own copy of
--   the commands, and Keys/Native that both loops do the same. Responses/Address,
--   Responses/Metadata, Control/Upload, Control/Port and Exchange put both ends of the control
--   connection together.
--
-- Stateful methods are functions from a state to a result and a state; exceptions are values, and a
-- state is kept when one is raised. What a socket, the clock and other threads do is the
-- environment's: a list of rounds for each wait of the sender, a list of polls for the receiver, an
-- outcome for each sendto. A list that ends is a deadline that passes. Another thread's cancel() is
-- an entry of these lists; it comes before a check of the loop. Integers are the native ℕ, since
-- the code lets no negative number into a header; fields are bounded where the code bounds them.
-- The recursion on a file's chunks has the file's length as fuel, which is enough because a chunk
-- has a byte at least.
--
-- The search of a free name for STOU has rounds as fuel; more rounds than the first free count are
-- enough, and without them it is still searching. A control connection that breaks shows as the end
-- of the requests. A text is its code points; upper and lower change ASCII letters only, and digits
-- are ASCII digits.
--
-- Not modelled: the log, the table of sessions and the accept loop of server/tcp_server.py, and a
-- reply that has no UTF-8 encoding; the progress output of common/data_transfer.py; the search for
-- a local file of client/control_client.py; locks; a change of the file during a transfer; a
-- failing open or unlink of the receiver's temporary file; isinstance checks, which the types carry. How the
-- worker of a server's transfer and the data functions interleave is left to the environment: the
-- control connection takes the result of a transfer as an event.
pub mod Prelude
pub mod Protocol
pub mod Rdt
pub mod DataTransfer
pub mod Server
pub mod Client
mod Tests
