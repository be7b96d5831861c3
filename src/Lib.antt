-- ===== src/Lib.antt =====
-- Verification of the RTP stream cleaner.
--
-- The program is a proxy between a doorphone (leg A) and rtpengine (leg B). For each call it leases
-- four UDP ports, forwards audio as it is, and mends the doorphone's video on its way from A to B:
-- it collects the packets of one H.264 frame, then sends them with one timestamp and with the RTP
-- marker on the last packet only.
--
-- Files and what they model:
--   Prelude            shared names, Boolean tests, lists over the native numbers, words that wrap
--   Bytes              byte slices, encoding/binary.BigEndian, masks and shifts
--   Net                what is used of Go's net package: addresses, net.IP.Equal, one write
--   Float              the binary64 computation in nextFrameTimestamp
--   Rtp                internal/rtpfix/rtp.go (parseRTPHeader is parse_rtp_header)
--   Rtp/Parse          internal/rtpparse/rtp.go (Parse is parse)
--   Rtp/H264           internal/rtpfix/h264.go (parseH264 is parse_h264)
--   Rtp/Rewrite        setMarker, setTimestamp and the write of rewriteSeqForOutput in
--                      internal/session/video_proxy.go
--   Ports              internal/session/allocator.go
--   Ports/Spec         what the allocator promises, without its free list
--   Video              internal/session/video_proxy.go: the state of videoProxy
--   Video/Output       sendPacket, forwardRawPacket and the injection of parameter sets
--   Video/Timestamp    nextFrameTimestamp
--   Video/Frame        the frame buffer and its flush
--   Video/Handle       handleVideoPacket
--   Video/Loops        trackSeqGap, analyzeFrameBoundaries and the bodies of loopAIn and loopBIn
--   Video/Flushed, Video/Invariant, Video/Parts, Video/Steps, Video/Order, Video/Unfixed, Video/Reach,
--   Video/Latency      proofs
--   Peer               updateDoorphonePeer of both proxies
--   Session            the session of internal/session/manager.go and its view in session_view.go
--   Audio              internal/session/audio_proxy.go: the bodies of its two read loops
--   Audio/Account, Audio/Relay   proofs
--   Manager            internal/session/manager.go: create, get, update, delete, removal when idle
--   Manager/Reaper     reapIdleSessions
--   Manager/Sessions, Manager/Invariant, Manager/Opening, Manager/Create, Manager/Remove, Manager/Run
--                      proofs; Manager/Run has the relation of all reachable states
--   Api                internal/api/handler.go: the handlers, with the library's parsers as parameters
--   Api/Atomic         proofs
--   Bytes/Order        encoding/binary.LittleEndian, and an order chosen at run time
--   Pcap               internal/pcapio/pcapio.go: packets, errors, io.ReadFull
--   Pcap/Checksum, Pcap/Frame   checksum, udpChecksum and buildEthernetIPv4UDP
--   Pcap/Writer        Writer
--   Pcap/Ng            nextPcapng and parseNgOptions
--   Pcap/Reader        OpenReader, nextPcap and Next, and all the calls of Next until one fails
--   Pcap/Sums, Pcap/Built, Pcap/Udp, Pcap/Ends, Pcap/Written, Pcap/RoundTrip   proofs
--   RtpPeer            cmd/rtppeer/main.go
--   RtpPeer/Extract    extractUDPPayload
--   RtpPeer/Send       sendLoop and applyPacing
--   RtpPeer/Sources    listSources
--   RtpPeer/Receive    recvLoop
--   RtpPeer/Options    parseSSRC and parsePacing
--   RtpPeer/Flags      the checks of parseFlags
--   RtpPeer/Inside, RtpPeer/Replay, RtpPeer/Sent, RtpPeer/Counted, RtpPeer/Schedule, RtpPeer/OnTime,
--   RtpPeer/EndToEnd, RtpPeer/SourceCounts, RtpPeer/Ssrc   proofs
--   Config             internal/config/config.go
--   Strings            what is used of Go's strings, unicode and strconv
--   Tests              runs on concrete inputs
--
-- The manager leases ports from Ports for each session and starts a proxy of Audio and one of Video,
-- which read the session's destinations and write its counters and activity. The handlers of Api
-- check a request and call the manager.
--
-- Conventions. A method becomes a function from the state to the new state. A byte is a number below
-- 256 and a slice a list of bytes; a uint16, uint32 or uint64 is a number with its wrap-around
-- written out. Times and durations are nanoseconds of a monotonic clock, and each reading of the
-- clock is an argument; durations of the configuration are not negative. The times of a capture count
-- from 1970. A network write is an entry of the list `wire` (`to_a` and `to_b` in Audio), and whether
-- it succeeds is the answer of a function of all the writes before it, the packet and the
-- destination, which the theorems leave open.
--
-- The two loops of a proxy, and the calls of the manager, are sequences of whole iterations and calls
-- in any order: what they share is atomic or behind a mutex. What an iteration loads from the
-- session's atomics stands in its datagram. The draw of an unused session identifier takes the list
-- of the identifiers that are generated, and is undecided where the list ends.
--
-- The test peer stands beside the proxy. It reads a capture through Pcap/Reader, sends the RTP packets
-- of two sources in it, and writes what it receives through Pcap/Writer.
--
-- Five loops of the model take fuel. The search for the scale of a floating-point number has 1074
-- rounds, which reach the smallest double. The folding of a 32-bit sum into 16 bits has three. The
-- blocks of a pcapng file, and the calls of Next, have a round for each byte of the file and one
-- more, since each takes bytes off it. The reading of a block's options has a round for each of their
-- bytes, and takes at least four of them in each.
--
-- Not modelled: logging and statistics, the sockets themselves, goroutines and contexts, the HTTP
-- server and the coding of JSON, start-up, the opening of files, and the reading of flags from the
-- command line.
pub mod Api
pub mod Audio
pub mod Bytes
pub mod Config
pub mod Float
pub mod Manager
pub mod Net
pub mod Pcap
pub mod Peer
pub mod Ports
pub mod Prelude
pub mod Rtp
pub mod RtpPeer
pub mod Session
pub mod Strings
pub mod Tests
pub mod Video
