-- ===== src/Lib.antt =====
-- The time keeping of FAST-LIVO-UG and the guards of its sensor data: src/sensor_time_bridge, the IMU
-- time anchor of src/livox_ros_driver2, and the GNSS adapter, the GNSS fault injector, the scan
-- lifecycle and the point-time split of src/FAST_LIVO2.
--
-- The time bridge. A microcontroller stamps sensor events with its own clock and sends them over a
-- serial line. The bridge decodes the line (wire_protocol.cpp), checks the stamps (local_time.cpp), and
-- keeps an affine map from the microcontroller's clock to UTC (time_mapping.cpp); bridge_node.cpp joins
-- the three.
--
-- The time anchor. The LiDAR driver observes the stamps of its IMU and writes the last one with the
-- host's time into shared memory, from where other processes read it (imu_time_anchor.cpp). The memory
-- is guarded by a sequence number, and is marked ready while enough samples continue one another.
--
-- The fault injector is a filter on the GNSS solutions, which drops or degrades those of an interval of
-- message time (gnss_fault_injector.cpp, with the time from gnss_math.cpp). The GNSS adapter takes the
-- solutions, which may have come through the filter, or poses: it classifies them, follows whether the
-- fixed ones are confirmed, lost or recovering, sets the origin of the local coordinates, and answers
-- each with a status and perhaps an odometry (gnss_adapter.cpp). The scan lifecycle throws when the
-- calls for one LiDAR scan do not come as they should (livo_scan_lifecycle.h), and the points of a
-- scan are split at the time of the image (livo_point_time_split.h).
--
-- Which file models which part:
-- - Base, with Base/Tests, Base/Lists, Base/Texts, Base/Integers and Base/Bits: Boolean tests, lists
--   over the native numbers, texts as lists of bytes, the values of an int and their conversion to
--   words, and bitwise operations. Float/Whole and Float/Fixed: two arithmetics for the tests. Nothing
--   of the program.
-- - Wire/Bytes: put16, put32, put64, get16, get32, get64. Wire/Crc: crc32c. Wire/Cobs: cobsEncode and
--   cobsDecode. Wire/Event: encodeWireEvent and decodeWireEvent; a DecodeError is a value of Decoded.
--   Wire/Decoder: IncrementalDecoder. Wire/Queue: BoundedWireEventQueue, and the loop of feedBytes in
--   bridge_node.cpp that pushes into it. Wire/Sequence: SequenceTracker. Wire/Types: the data types of
--   wire_protocol.h. Wire/Decoder/Segments: the whole stream cut at its zero bytes, an independent
--   description.
-- - LocalTime: tickToLocalNs, extendCounter16Snapshot and StreamMonotonicGate.
-- - Float: the floating-point operations that the code uses, as a record without laws.
-- - Mapping/Types: the data types of time_mapping.h. Mapping/Convert: clampU64, median, localToUtc and
--   utcToLocal. Mapping/Fit: robustAffineFit. Mapping/Machine: MappingStateMachine. Mapping/Host:
--   HostMonotonicMapper.
-- - Bridge: processEvent, beginSession and the loop of drain of bridge_node.cpp, with fnv1a.
--   Bridge/Observations: utcObservationCallback, the update in publishStatus, and the two services.
-- - Anchor: the memory, the stores of WriteImuTimeAnchorState and the loads of ReadImuTimeAnchorState.
--   Anchor/Schedule: a writer and a reader at the same time, as steps of single accesses.
--   Anchor/Snapshot: what a reader alone takes. Anchor/Writer: ImuTimeAnchorWriter. Anchor/Chain: the
--   samples that continue one another, an independent description.
-- - Gnss: GnssPVTSolnMsg, gpsWeekTowToUnixUtc and gpsToUtcStampNs. Fault: GnssFaultInjectorCore.
--   Fault/Reference: the filter without memory that it is compared with. Fault/Names:
--   parseGnssFaultMode and gnssFaultModeName.
-- - Gnss/Geodesy: geodeticToEcef, ecefToGeodetic and ecefDeltaToEnu of gnss_math.cpp.
-- - Adapter: the types of gnss_adapter.h. Adapter/Quality: classify, passesQualityGates,
--   qualityAccepted. Adapter/FixedState: updateFixedState. Adapter/Average: updateOrigin and the
--   functions of the average, and the origin in resetRuntimeState. Adapter/Output: fillOdometry.
--   Adapter/Stages, Adapter/Measure, Adapter/Process: processPvt, split where it looks at the time,
--   and the two process functions that call it. Adapter/Pose: process of a pose. Adapter/Config:
--   validateConfig, initialize and GnssFusionPolicy. Adapter/Calls: any messages in turn, as the
--   three callbacks hand them on. Adapter/Scenario: data for the tests.
-- - Lifecycle: LivoScanLifecycle.
-- - PointSplit: appendLivoTimeSplit.
-- The other child modules hold the proofs, and Tests the runs on concrete values.
--
-- How the code is read. A class is a record, a method a function from the record to the record and the
-- result, an out-parameter a part of the result, and `return false` is none or a constructor for the
-- reason. A byte vector is a list of numbers, a pointer into it the list from there on, and a deque is
-- a list with its front first. Words are numbers, with the wrap-around of 32 and 64 bits written out
-- where the code can wrap. Loops are structural recursion. The one loop on fuel is that of cobsDecode:
-- its fuel is the length of the input, and each round takes at least one byte. An attempt to read the
-- anchor takes 11 loads at most, so 11 for each attempt and one step more end the read. The loop of
-- robustAffineFit runs its eight rounds. The floating-point operations are parameters, and so is
-- ros::Time::fromSec; a theorem that needs something of them says so. A ros::Time is its number of
-- nanoseconds, below 2^63 as the code has it, so a difference of two is exact. An exception is a value beside the state that the
-- call leaves. Every load and store of the anchor takes effect at once and in program order.
--
-- What is not modelled. The rest of the bridge node: its subscriptions, timers, parameters, serial
-- input and locks, and the messages that only report its state. The texts of errors: the reasons are
-- constructors, and decodeErrorName is left out. Of the fault injector, the names of its
-- actions, and its node. Of the adapter, the reading of ROS parameters, the topics, the log lines and
-- the texts of detail. The weaker orders that a machine may give the accesses of the anchor. The
-- estimation of src/FAST_LIVO2 (LIVMapper.cpp, vio.cpp, voxel_map.cpp and the backends), which is
-- floating-point work on Eigen, PCL, OpenCV and GTSAM types; its managers of UWB and landmarks, which
-- are left for later; the drivers, and src/rpg_vikit, which is a copy of another library.
pub mod Base
pub mod Wire
pub mod LocalTime
pub mod Float
pub mod Mapping
pub mod Bridge
pub mod Adapter
pub mod Anchor
pub mod Fault
pub mod Gnss
pub mod Lifecycle
pub mod PointSplit
