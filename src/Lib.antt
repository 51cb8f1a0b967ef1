-- ===== src/Lib.antt =====
-- The acquisition console for the SA220P digitizer: a program that streams time-of-flight spectra
-- from a digitizer card, encodes them, publishes them live and writes them to UIMF files, on the
-- commands of a client.
--
-- The parts, and the files that model them:
--
-- Common, with Tests, Lists, Int, Word and Bits below it: what the others share. Numbers are native
-- naturals; a word of w bits is a number below 2 ^ w with its wrap-around written out, and a signed
-- integer is a ℤ.
--
-- Buffer: AcquisitionBuffer (libaqmd3/include/libaqmd3/acquisitionbuffer.h,
-- libaqmd3/src/acquisitionbuffer.cpp), a flat array with counters. A pointer into it is an index.
-- Pool: AcquisitionBufferPool (libaqmd3/src/acquisitionbufferpool.cpp), buffers that the acquisition
-- takes in turn. A shared pointer is a slot with a count of its outside holders.
-- Stream: the data handed from card to consumers (libaqmd3/include/libaqmd3/acquireddata.h), the
-- checks of driver status and request (libaqmd3/src/helpers.cpp), and what a fetch answers.
-- Card: the driver's calls that Digitizer makes (libaqmd3/src/digitizer.cpp) and what the streaming
-- contexts share (libaqmd3/src/streamingcontext.cpp), over a driver that is an interface. Setup is the
-- settings of SA220 (libaqmd3/src/sa220.cpp), Steps what a configuration leaves, and
-- Info the names that the card reports (libaqmd3/include/libaqmd3/sa220.h).
-- Zs1: CstZs1Context (libaqmd3/src/cstzs1context.cpp), the zero-suppressed acquisition. Marker
-- decodes the 16-element hunks of the markers stream, Zs1 walks over them and keeps the state that
-- outlives a call, and Acquire is `acquire` with its fetches. Hunks, Requests, Chunks, Counts,
-- Elements, Delivery, Replay, Ending and Bounds hold the theory of the walk.
-- Cst: CstContext (libaqmd3/src/cstcontext.cpp), the acquisition without zero suppression, which
-- finds the triggers in the same kind of stream.
-- Timing: TofTimingInformation (AqMD3_console/src/massspec/toftiminginformation.cpp), which measures
-- the pusher's period on a context and sizes the record. Double arithmetic is an interface.
-- Encode: UimfAcquisitionRecord::process (AqMD3_console/src/uimfacquisitionrecord.cpp), which turns
-- an acquired batch into rows of run-length encoded spectra. Reader is how such a row is read, Runs,
-- Tallies and Gates the theory of the loops, and Batch what a row holds.
-- Live: ZmqAcquiredDataSubscriber (AqMD3_console/src/zmqacquireddatasubscriber.cpp), which checks and
-- sums the rows of a batch and publishes the sums.
-- Publish: AcquirePublisher (AqMD3_console/src/acquirepublisher.cpp), the thread that acquires a frame
-- from a context in segments and hands the batches on. Its context is an interface. Events, Turns and
-- Frame are the theory of the loop.
-- Pipeline: that thread with CstZs1Context, the pool and the card for its context, and the subject and
-- a subscriber's queue behind it. Generator has the stand-in for a card
-- (AqMD3_console/include/diagnostic/datageneratorcontext.h) for its context, Routing says which
-- frames go to whom, and Disk what reaches the file.
-- Chain: the life of that chain under a client's commands: AcquirePublisher's start and stop, called by
-- the handler, with the threads as interleaved steps. Polite says how a careful client behaves, Safety
-- what it is promised, Return what a stop waits for, Kill and Loss what others meet.
-- Queue: publishers, subscribers and the subject between them (AqMD3_console/include/publisher.h,
-- AqMD3_console/include/subscriber.h, AqMD3_console/src/processsubject.cpp), as interleaved
-- steps. Registry is who is registered, and Cascade the completion of a chain, through the subject.
-- Writer: UimfWriter (UIMFWriter/src/UIMFWriter.cpp), which rows of a frame it inserts.
-- Compressed is the buffer of a compressed spectrum (UIMFWriter/src/encodedresult.cpp), and
-- Transaction the statements of a batch, over a database that may fail at each of them, with the
-- subscriber that writes the batches (AqMD3_console/src/uimfframewritersubscriber.cpp).
-- Config: the settings file (AqMD3_console/include/util/config.h) and the settings that are refused.
-- Startup is what main makes of them before it opens the card (AqMD3_console/src/aqmd3_console.cpp).
-- Server: the command socket's replies (AqMD3_console/src/server.cpp). Run is its loop, over the frames
-- that arrive, and Publishers the publishing sockets.
-- Console: the handler of the commands (AqMD3_console/src/aqmd3_console.cpp). What it calls is an
-- interface, whose calls answer, throw or end the process. Every is the theory of its
-- runs, Answers and Controller what follows.
-- Dialogue: that handler behind the command socket's loop, from the frames that arrive to those sent.
-- Main: main from start to exit (AqMD3_console/src/aqmd3_console.cpp), with the card's session.
-- Examples: runs at concrete inputs.
--
-- How they interact: a command reaches Console through Server. "acquire" measures the period with
-- Timing, sizes the record, and builds Publish over a ZS1 context with a Pool. Publish calls the
-- context's `acquire`, which takes a buffer from the pool, reads markers and then samples from the
-- driver, and returns a batch; through Queue the batch goes to Encode, and its rows to Live and to Writer.
--
-- The driver and the clock are scripts: the answers of the calls, in their order, each with whether
-- the clock was past the limit when it came. A loop that waits for the driver recurses on the script,
-- and comes to `waiting` where the script ends first. The loop of Publish recurses on fuel; one above
-- the frame's length in turns, and one for the turn that ends it, are enough, since each turn without
-- a failure acquires a trigger at least. All other loops are structural.
--
-- What is not modelled: the driver, ZeroMQ, protobuf, snappy, SQLite, LZF and the operating system are
-- other code; log lines and the console's window are plain output. Counters of C type `int` that
-- would take 2 ^ 31 elements to overflow do not wrap, but for the counts and bin numbers of Encode
-- and the sums of Live, which do.
pub mod Common
pub mod Buffer
pub mod Pool
pub mod Stream
pub mod Card
pub mod Zs1
pub mod Cst
pub mod Timing
pub mod Encode
pub mod Live
pub mod Queue
pub mod Writer
pub mod Publish
pub mod Chain
pub mod Pipeline
pub mod Server
pub mod Config
pub mod Console
pub mod Dialogue
pub mod Main
pub mod Examples
