-- ===== src/Lib.antt =====
-- The STAR high level trigger: the readers of the detectors whose hits the trigger uses.
--
-- The program. HLT_MTD reads the muon telescope detector (MTD): mtd_hlt_reader decodes the words of the
-- two readout boards (RDOs) of an event, gathers the edges of each strip into single hits, joins the two
-- ends of a strip into hits, decodes the QT boards of the trigger to find the modules that fired it, and
-- tells which sectors of the TPC are worth tracking. HLT_TOF does the like for the time-of-flight
-- detector. L4_HLT finds tracks and vertices, matches them with the hits of the detectors and decides.
-- A caller makes one reader for a run and for each event calls new_event, read_rdo_event for each RDO,
-- read_mtd_trigger and do_event. L4HLTTask_cpu then asks gl3TriggerDecider for the decision of each algorithm
-- that a level-2 trigger of the event needs.
--
-- Files and the code that they are about (paths from the root of the repository):
--   Prelude and its children: lists, tests, integers, bits and finite checks over the native numbers.
--   Floats: the floating-point arithmetic, a parameter of everything that computes with it.
--   Mtd/Tables, Mtd/SlewEdges, Mtd/SlewCorr: the tables of HLT_MTD/mtd_defs.h.
--   Mtd/Types: MtdRawHit, MtdSingleHit, and what a scan of an RDO changes.
--   Mtd/Rdo: mtd_hlt_reader::read_rdo_event. Strips is about the numbering of the strips, Decode about
--     writing and reading words, Bounds about any words at all.
--   Mtd/Singles: fillMtdSingleHits. Gather is about the times of a strip, Distinct about the shape of the
--     slots, Places and Filed about the strips that the channels are filed under.
--   Mtd/Config: init; Wiring is about its tables.
--   Mtd/Hits: fillMtdHits, isMtdHitFiredTrigger, isHitInTrigWin. Strips says which strips give a hit,
--     Bounds that no array is left.
--   Mtd/Sectors: getTpcSectorMask and the functions that it calls. Sides is about the sectors of a
--     direction, Mask about the bits of the mask.
--   Mtd/Qt: decodeQT; Blocks is about writing and reading a block.
--   Mtd/Trigger: read_mtd_trigger from the decoded block on. Channels is about the rows of mtdQTtac and
--     mtdQTadc, Slewing about the correction of a TAC value, TopTwo about the two largest sums, Fired
--     about mTrigQTpos.
--   Mtd/Swap: swapI and swapSS of HLT_MTD/mtd_hlt_reader.h.
--   Mtd/Reader: the object as a whole: constructor, new_event, clear, read_rdo_event, read_mtd_trigger
--     and do_event. Events is about the states that any sequence of calls leads to, Total about do_event
--     on them, Sent about what it writes beside the hits.
--   Tof/Types: the hits of tof_hlt_sector and the arrays that it reads.
--   Tof/Rdo: tof_hlt_sector::read_rdo_event; Range is about the reads of the correction arrays.
--   Tof/Pairs: do_event up to the corrections; Groups is about its outer loop.
--   Tof/Correct: the corrections, linearInter and do_event as a whole.
--   Decider/Types: the tracks, nodes, towers and the event that L4_HLT/gl3TriggerDecider.cxx reads, and the
--     operations of the calorimeter, the track model and the TOF geometry that it calls, as parameters.
--   Decider/Cuts, Decider/RunControl: the parameters of the triggers, the values that setTriggers assigns
--     before it reads the file of parameters, and setTriggersFromRunControl.
--   Decider/State: the members of gl3TriggerDecider, the banks of L4_HLT/HLTFormats.h and resetEvent; Entries
--     is about the entries of a bank.
--   Decider/Loops: the loops over nodes and pairs; Kept is about what they keep.
--   Decider/Match: nSigmaDedx, matchPrimaryTracks and the best tower; Best is about that tower.
--   Decider/Simple, Decider/Tracks, Decider/Muons, Decider/Electrons, Decider/DiElectron, Decider/TwoTower,
--     Decider/Upc, Decider/HighTowers: the decisions.
--   Decider/Run: the loop of L4_HLT/L4HLTTask_cpu.cxx over the decisions. Accepted and Bits are about the two
--     masks, Counters about the counters.
--   Decider/Settled: what each decision does to hltDecision and the counters.
--   Decider/Gathered: what the decisions record in their banks.
--   Emc/Types: the towers and the calibration of L4_HLT/gl3EMC.h and L4_HLT/l3EmcCalibration.h.
--   Emc/Read: readRawBtowers, readFromDaqReader and the barrel part of readFromEvpReader of L4_HLT/gl3EMC.cxx.
--     Kept is about the towers that stay, Crates about the numbering of the crates, Constructed about the
--     state that reset leaves.
--   Emc/Seeds: getTrackingSeeds; Filled is about the seeds of a sector.
--   Tests: runs at concrete inputs.
--
-- How the code is modelled. A member function that changes the object takes the state and returns the
-- new one. An array is a function of its indices; a vector is a list. A read or a write outside an array
-- is `none`. Fields of a word are cut out by division and remainder. Machine integers that the code lets
-- wrap around do so in the model; the char fields of the hits hold numbers that Mtd/Rdo/Bounds bounds.
-- The loops are recursion on the list or on the number of passes left, except two kinds. The outer loop of
-- tof_hlt_sector::do_event runs on fuel, one more than the number of hits, which Tof/Pairs/Groups is
-- about. The loops of rotatePhi and of getTrackingSeeds and those that bring a time into its range
-- run on fuel too: how often they turn depends on the arithmetic.
--
-- A bank of a decision is its counter with the writes into the 1000 entries of its array, so that a write at
-- another place than the counter shows. The code does not check the place: a write past the array is not
-- kept, and the bank says `overrun` from then on. In the same way the member `fault` says that a decision on
-- muons followed the null pointer of an event without data or read a track past the last one. The counters of
-- calls and successes wrap around at 32 bits. The parameters of the triggers, their bits and
-- switches included, are a `Cuts`, which the decisions take as an argument: the file that readHLTparameters
-- reads may change any of them. The node array of the event is part of the decider's state, since the
-- decisions match its nodes to towers and cells. rand() is a number that comes with the event.
--
-- Not modelled: the layout of the trigger data block inside the DAQ's memory, whose words come as
-- arguments; the log and the clock readings; mtd_hlt_reader::readFromMcEvent; the files that
-- tof_hlt_sector::readparameters reads, whose contents are a parameter; the tasks around the two readers;
-- in L4_HLT the track finding, the vertices, the server and the files of parameters, of the calorimeter
-- the older readers and the match of a track to a tower, and
-- gl3TriggerDecider::decide, an older form of the decisions that nothing calls.
pub mod Prelude
pub mod Floats
pub mod Mtd
pub mod Tof
pub mod Decider
pub mod Emc
pub mod Tests
