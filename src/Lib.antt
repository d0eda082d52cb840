-- ===== src/Lib.antt =====
-- The data path of the SMuRF processor, from a raw frame to the packets that are transmitted and written to files.
--
-- A frame arrives from the hardware's transport with a header of 128 bytes and 4096 raw samples of 16 bits.
-- `SmurfProcessor::acceptFrame` (src/smurf_processor.cpp) queues it. `runThread` copies it into one of two
-- buffers, counts it, puts the TES bias values into its header, unwraps the 528 masked channels against
-- the last buffer, filters them, and asks the header's average counter whether a packet is due. On bits
-- of the header it clears its state, reads its settings again, or replaces samples by test data. A packet, the
-- header and the filtered samples, goes into the packet ring, from which the transmitter and the
-- file writer read, each at its own pace.
--
-- The modules:
--   Prelude      what the others share: lists and integers over native numbers, the result of a C++ call,
--                bytes in memory, bits. A call ends with a value, an exception, or undefined behaviour.
--   TesBias      src/tes_bias_array.cpp, include/tes_bias_array.h: 16 words of 20 bits packed in 40 bytes.
--   DataBuffer   src/data_buffer.cpp, include/data_buffer.h: the packet ring, with the turn of the writer and
--                of a reader as runThread, pktTansmitter and pktWriter make it.
--   Packet       ISmurfPacket_RO and ISmurfPacket of include/smurf_packet.h, src/smurf_packet.cpp: the packet's
--                two buffers and its getters and setters.
--   Header       SmurfHeader and pull_bit_field of the same files: a frame's header and the average counter.
--   Unwrap       the unwrapping loop of runThread, and read_mask.
--   Filter       SmurfFilter of include/smurftcp.h, src/smurf_processor.cpp: its accesses to its blocks (Block,
--                Total), against the difference equation (Refine) and the flat average (Average).
--   Config       SmurfConfig: the settings, and read_config_file over the words of smurf.cfg.
--   TestData     SmurfTestData: the generated samples of the test modes.
--   Frame        acceptFrame, frameToBuffer, and the samples behind the header in a buffer.
--   DataFile     SmurfDataFile: the parts and the system calls of write_file.
--   Timing       SmurfTime and SmurfValidCheck: the changes of the clocks from packet to packet.
--   FrameCount   the frame counters of runThread, and clearFrameCnt.
--   Processor    SmurfProcessor (include/smurf_processor.h): its state, constructor and setTesBias, and the body
--                of the loop of runThread, composed of the modules above. Its children have what a step keeps
--                (Ready, Steps, Output, Runs) and what a frame puts into the ring (Stamp, Packets,
--                Biased, Frames). Access has the short methods of the header.
--   Threads      turns of pktTansmitter and pktWriter with the ring, in any order with the writer's. In Parts
--                each statement of doneWriting and doneReading is a part of its own (Flags, Watch, Mixed), and in Steps
--                the calls that give slots and these parts are the steps of the threads (Placed, Races).
--   Pipeline     the rounds of runThread and the turns of the two threads in any order, on the shared ring,
--                settings and file. Processor.Alone and Processor.Ringless describe a step apart from the ring.
-- A definition keeps the source's name in lower case with underscores. An object is a record, a method a
-- function from the record to the new one, and what it returns; the children of a module
-- have the laws and the tests.
--
-- Numbers are natural numbers with the source's wrap-around written out; signed numbers are integers, and
-- unwrapping has undefined behaviour on an overflow of 32 bits. Every loop of the source has a bound and
-- is a recursion on the list or on the rounds left, so no definition needs fuel; the endless loops of the threads
-- are runs over a list of rounds or turns. Numbers of type double are a parameter of the filter
-- with the operations it applies; nothing is assumed of them. What `open`, `ftime`, `strtof`, `rand`
-- and the sine give is an argument, as are the contents of the two files that are read, and the
-- uninitialised words.
--
-- Not modelled: the queue of frames and its threshold, the waiting of the threads, the locks and the condition
-- variable, which the standard library, boost and rogue provide. A turn of a thread on the ring is one
-- step in Threads and Pipeline, and getWritePtr and getReadPtr are one each in Threads.Steps; within a statement, and
-- between a round of runThread and the settings
-- that the file writer reads meanwhile, no interleaving is modelled. Also left out are the time of the
-- delay in test mode 15, the log of frame jumps, printing, the Python interface and the scripts. Functions
-- whose end is reached with no `return` are taken to return.
pub mod Prelude
pub mod TesBias
pub mod DataBuffer
pub mod Packet
pub mod Header
pub mod Unwrap
pub mod Processor
pub mod Frame
pub mod TestData
pub mod Timing
pub mod Filter
pub mod Config
pub mod DataFile
pub mod FrameCount
pub mod Threads
pub mod Pipeline
