-- ===== src/Lib.antt =====
-- go-nfs-client, a userspace NFSv4 client in Go: a model of its wire formats, its RPC layer, its
-- COMPOUND layer, its session and retry logic, its connections, and its open files.
--
-- The parts, from the bottom up, and where they stand:
--   Prelude         Boolean tests, lists, signed integers, bits of a word.
--   Xdr             xdr/encoder.go and xdr/decoder.go. Xdr.Io holds what they use of Go's io and
--                   encoding/binary. Xdr.Encoder and Xdr.Decoder have one function per method.
--                   Xdr.Codec is the interface to all that is built on them: a `Codec` pairs what
--                   an encoder appends with what a decoder reads back, and codecs compose as calls
--                   do. Xdr.Parser and Xdr.Consumption state how decoders behave on any input,
--                   Xdr.Fields is any sequence of fields.
--   Rpc             rpc/auth.go, rpc/message.go, rpc/record.go, rpc/client.go and the numbers of
--                   rpc/consts.go. Rpc.Record is record marking, Rpc.Message the headers, Rpc.Client
--                   a call from its arguments to its decoded results.
--   Nfs4.Types      nfs4/types.go; Nfs4.Opnums and Nfs4.Types have the numbers of nfs4/consts.go.
--   Nfs4.Args       the arguments of nfs4/ops.go, nfs4/writeops.go and nfs4/sessionops.go: a record
--                   and an encoder per operation, and `Arg` for the interface of that name.
--   Nfs4.Results    the results of the same files: a record and a DecodeRes per operation.
--   Nfs4.Server     what a server reads of an operation, after RFC 7530 and RFC 8881; Nfs4.Readers
--                   has the bodies.
--   Nfs4.Replies    what a server writes for a result, after the same documents.
--   Nfs4.Compound   nfs4/compound.go.
--   Nfs4.Caller     the interface CompoundCaller of nfs4/conn.go.
--   Nfs4.Session    the slot table of nfs4/session.go, and Nfs4.SessionCaller its CallCompound.
--   Nfs4.Retry      nfs4/retry.go.
--   Nfs4.Conn       nfs4/conn.go, nfs4/conn_write.go and nfs4/transport.go. Nfs4.Conn.Stack has the
--                   callers and their shared world, Nfs4.Conn.Action what a method is,
--                   Nfs4.Conn.Zero the zero values that results are decoded into. Bootstrap, Reading,
--                   Writing and Names have the methods; the other modules reason about them.
--   Nfs4.Attr       nfs4/attr/bitmap.go (Nfs4.Attr.Bitmap), nfs4/attr/attr.go (Nfs4.Attr.Attributes
--                   and Nfs4.Attr.Mode), nfs4/attr/encode.go (Nfs4.Attr.Settable) and
--                   nfs4/attr/statvfs.go (Nfs4.Attr.Statvfs).
--   Client          client/lease.go (Client.Lease). Of client/file.go, RWProtocol (Client.Protocol),
--                   OpenFile and Statvfs (Client.Opening), ReadAt (Client.File) and the other methods
--                   of an open file (Client.Handle). Of client/fs.go, the resolution of names
--                   (Client.Paths), pathError (Client.Errors), reading directories (Client.Dirs) and
--                   the read-only file system (Client.Views). client/client.go (Client.Mount).
--   Examples        runs at concrete values.
--
-- How they interact: a call of a file operation is a Compound. The retrying caller repeats it, the
-- session's caller puts a SEQUENCE in front of it and holds a slot meanwhile, and the RPC client
-- frames it as one record and decodes the reply. Each caller takes the one below it as a parameter.
-- A connection holds its stack of callers as data, which Mount changes; Nfs4.Conn.Carried says what
-- it takes for a reply to come through a stack, and the methods are proved against that alone. The
-- file layer depends on RwProtocol, which a connection is by `conn_protocol`.
--
-- How state and operations correspond to the code:
--   * An encoder's method is a function from encoders to encoders, a decoder's method one from
--     decoders to a value and a decoder; do blocks are sequences of calls. The sticky error of
--     each is a field of its state, and each method tests it where the code does.
--   * The io.Writer is a function that says, for each Write, which error it answers. The io.Reader is
--     the bytes that are to come and the error that ends them; io.ReadFull reads from it.
--   * A slice or a string is a list of bytes; a nil slice is the empty list. An array is a list whose
--     length a theorem demands. Machine words are native numbers, with `% 2 ^ w` where the code
--     converts or adds; masks and shifts are written as division and remainder.
--   * What the code mutates through a pointer is passed in and handed back: a result before and after
--     its DecodeRes, the state that the decoders of a call share, a session, a client.
--   * A session under concurrent use is the step relation `Step` of Nfs4.Session. A step is one
--     channel operation or one critical section of the mutex, in any order.
--   * The context, the clock and the server are parameters of the callers, gathered in `Environment`.
--   * A method of a connection maps the connection and the world to a result and what they are then; a
--     result may also be the panic of a nil *CompoundResult.
--
-- Bounds and fuel: a stream has finitely many bytes before its end. A message is read in rounds
-- that take four bytes each at least, and so is a directory's reply; both loops get one more
-- round than there are bytes. On a connection that never ends ReadRecord has no bound, since
-- fragments of no bytes keep it going. ReadAt gets one round more than the buffer has bytes, and
-- needs no more on a server that answers with a byte where there is one; so does WriteAt, whose
-- server takes one byte at least. readDirAll has no bound of its own: its rounds are a parameter,
-- and it needs one more than the directory has entries on a server that keeps sending some. The
-- retry loop is structural in the number of attempts. A number of 32 or 64 bits is printed in at
-- most 20 digits. The limits of 64 MiB for an opaque, 256 MiB for a fragment and 512 MiB for a
-- message are those of the code. `int(count)` is taken to be exact, as it is on a 64-bit
-- platform.
--
-- What is not modelled: dialling, deadlines and TCP options, which are I/O; the texts of errors, and
-- the operation and path that a PathError carries; the names of statuses; errors of the transport
-- that match a sentinel of io/fs; the mutexes of a connection and of an open file, which one method
-- holds at a time; WithContext; the goroutine, the channels and the clock
-- of client/lease.go.
pub mod Prelude
pub mod Xdr
pub mod Rpc
pub mod Nfs4
pub mod Client
mod Examples
