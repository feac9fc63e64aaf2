-- ===== src/Lib.antt =====
-- go.git-scm, a Git server library in Go: its packfiles, its pkt-lines, its object model, its repositories, in memory and on App
-- Engine, with the walk of the object graph, and the parts of its protocol that send and receive packfiles and refs.
--
-- The program's parts and the files that model them:
--   packfile/base128.go       Packfile/Base128: base128LE, putBase128LE, readBase128LE, writeBase128LE, readBase128MBE,
--                             writeBase128MBE, over the loops of encoding/binary.
--   packfile/object.go        Packfile/Header: readObjHeader, writeObjHeader; Packfile/Writer: marshalObj, hashObj;
--                             Packfile/Reader: unmarshalObj.
--   packfile/delta.go         Packfile/Delta: Mask (uvarintMask, putUvarintMask), Apply (applyDelta), Substring
--                             (longestCommonSubstring), Compute (computeDelta).
--   packfile/packfile.go      Packfile/Writer: NewWriter, WriteObject, Close; Packfile/Reader: NewReader, ReadObject,
--                             Close and flushZlib; `advance` is what they use of a digestReader.
--   packfile/digest.go        Packfile/Digest: digestReader and digestWriter, with the bufio.Writer between.
--   pktline/pktline.go        Pktline: Reader and Writer on a stream of bytes.
--   object/*.go               Object: the four objects, types and modes; Print: the verbs of fmt that are used;
--                             Marshal: MarshalText, MarshalBinary, Marshal and Hash; Decode: New and DecodeID; Scan: the
--                             methods Scan; Unmarshal: UnmarshalText, UnmarshalBinary, stripHeader and Unmarshal.
--                             Fmt: the steps of fmt.Fscanf that these call, with the UTF-8 of its runes in Fmt/Rune.
--   object/appengine.go       Object/Properties: parseProps, prefixProps and the methods Save and Load.
--   repository/interface.go   Repository: the errors.
--   repository/refs.go        Repository/Refs: IsValidRef; Repository/Deref: FindRef.
--   repository/mem/mem.go     Repository/Mem: the state `Repo` and a function for each method.
--   repository/appengine      Repository/AppEngine: get, put and del; Heads: heads.go, InitRepository, OpenRepository;
--                             Objects: objects.go; Refs: refs.go. Laws and Reliable: what the services are relied on for.
--   repository/objects.go     Repository/Walk: Walk; Repository/Deref: HasObject, GetCommit, GetTag, GetTree, GetPath.
--   protocol/capabilities.go  Protocol/Capabilities: Capabilities, sub, String; Protocol/Commands: Scan.
--   protocol/advertise-refs.go Protocol/Advertise: AdvertiseRefs, with protocol/fmt.go in Protocol/Lines.
--   protocol/receive-pack.go  Protocol/Commands: the scanning of a command; Protocol/Receive: ReceivePack, with its updates
--                             and report in Protocol/Report; Protocol/Unpack: unpack.
--   protocol/upload-pack.go   Protocol/Commands: the scanning of want and have lines; Protocol/Upload: the loop of the
--                             wants, and readHaveLines; Protocol/Negotiation: UploadPack with the rounds of its
--                             negotiation; Protocol/Unpack: the packfile that it sends; Protocol/Order: objectSizeOf
--                             and the order of the headers.
-- Base holds what they share: lists and tests on the native numbers, a result type, association lists for maps.
--
-- How they interact: computeDelta chooses its copies with longestCommonSubstring, writes lengths with base128 and
-- offsets with masks, and applyDelta reads the same; a repository keeps objects under the hash of their canonical
-- bytes; Walk reads objects through GetObject. A Reader asks a repository for the bases of deltas and puts what it
-- reads into it: `Store` has the two methods, IsStore their laws, and Repository/Mem gives both. WriteObject writes an
-- object as it is or as a delta to the last one of its type, which is why unpack finds that base in the repository.
--
-- Modelling: bytes are numbers, byte slices and strings are lists of them. 64-bit arithmetic keeps its wrap-around
-- (`% 2 ^ 64`). A Go slice whose capacity matters (`Slice`) is its bytes and the spare ones behind them. Panics are
-- errors. crypto/sha1 is the parameter `sha1`, and compress/zlib are the parameters `deflate` and `zlib`, a record of
-- functions that give one byte at a time. Of these nothing is assumed but what a theorem names: that a hash has twenty
-- bytes and tells the objects at hand apart, and that zlib gives back the bytes that were deflated and takes none behind
-- them. Go's string scanning is written out from its documentation. An error of the scanning is none.
-- The datastore and memcache are the parameter `services`: functions on a state of the world, whose
-- laws are named. A method of the repository in memory is one step, since it holds its lock throughout. Map iteration has no order in
-- Go: a `Tree`, a `CapList`, and the wants and haves of a client, are lists of entries in the order of one iteration. Writes to the underlying io.Writer
-- do not fail.
--
-- Fuel: applyDelta runs on the length of the delta, since an instruction takes a byte at least; computeDelta on one
-- more than the length of the result, since a round takes a byte at least; both are given by the definitions. Walk takes
-- its fuel as an argument: a round for each start and for each reference of an object that is no end. The dereferences
-- take theirs as an argument too: a unit for each object of the chain. The loops of the scanning run on the length of
-- the input, since a round takes a byte at least, and unpack on the number of objects, since a round takes one off it.
-- The loops that read lines of a client, and the rounds of the negotiation, run on one more than the bytes that are left,
-- since a round takes a byte at least or meets the end of the stream.
--
-- Not modelled: the Reader after an error within its stream, which the documentation leaves open; sort.Sort, a parameter
-- of UploadPack; HTTP and the example, which are calls of net/http and of the App Engine runtime.
pub mod Base
pub mod Fmt
pub mod Packfile
pub mod Pktline
pub mod Object
pub mod Repository
pub mod Protocol
