-- ===== src/Lib.antt =====
-- etcminer: a verification library for the miner, its farm and its pool manager.
--
-- The program mines Ethash coins. A pool client receives work packages from a pool; the pool
-- manager (libpool/PoolManager.cpp) chooses which of the configured pools the client talks to,
-- settles the epoch of each package, and hands it to the farm (libeth/Farm.cpp). The farm owns the
-- miners, one for each device (libeth/Miner.cpp, on the thread of libdev/Worker.cpp), gives each a
-- segment of the nonces, pauses and resumes them, and collects their telemetry. Solutions go from
-- a miner through the farm and the manager back to the client.
--
-- How it is modelled. Each object is a record with the source's members; an operation is a
-- function from the state to the next one. What an operation asks of another object (a client that
-- connects, a timer that is started, a task that is posted) is added to a list of the manager's
-- state, or is a call of the other model: the manager's state holds the farm. What answers such a
-- request later is an event. Locks are left out: every operation is one atomic step, and in the
-- model of the worker's thread every atomic access to its state is one. The mutexes of the device
-- classes (m_abortMutex, m_doneMutex) are flags of their state, and to lock one that the same
-- thread holds is an ending of its own. An exception is a result of its own. The stratum client
-- changes while a message is read, and keeps what was written before an exception: its handlers
-- are actions, whose result tells an exception that the reading of messages catches from one that
-- nothing catches. What it asks of asio is a list of effects, and what answers them later is a
-- call of the function that the source names as the handler; its URI object stands in its state.
-- Its two bounded queues hold 64 entries, and drop what does not fit. A w-bit integer is a number
-- with `% 2 ^ w` where the source computes; the signed integers are Prelude.Int. Floating point
-- numbers are the expressions that compute them, so no rounding is assumed. Texts are lists of
-- character codes.
--
-- The files, and the code that each is about:
--   Prelude         tests, lists, texts and integers over the native numbers
--   Dev.Float       floating point values as expressions
--   Dev.Endian      libdev/CommonData.h: numbers as big-endian bytes
--   Dev.Hex         libdev/CommonData.h, libdev/CommonData.cpp: bytes as hexadecimal texts
--   Dev.Worker      libdev/Worker.h, libdev/Worker.cpp: the states of a worker; Thread models its
--                   thread and its owner as two processes, and Protocol holds what they keep
--   Dev.FixedHash   libdev/FixedHash.h: hashes as lists of bytes, and Order, as numbers
--   Eth.Work        libeth/EthashAux.h: work packages and solutions
--   Eth.Miner       libeth/Miner.h, libeth/Miner.cpp: pause flags, device data, a miner, and
--                   Collection, the map of the devices
--   Eth.Farm        libeth/Farm.h, libeth/Farm.cpp: State holds the members; Nonce models setWork,
--                   Lifecycle start, stop, pause and resume, Accounts the solution counters, Collect
--                   the round of collectData; Shape and Pausing hold what is invariant
--   Pool.Scheme     libpool/PoolURI.cpp: the table of schemes
--   Pool.Uri        libpool/PoolURI.h: a pool's address with its flags
--   Pool.UrlCode    libpool/PoolURI.cpp: url_decode, which decodes the parts of an address
--   Pool.Host       libpool/PoolURI.cpp: the host, the port and the path of an address
--   Pool.Manager    libpool/PoolManager.h, libpool/PoolManager.cpp, libpool/PoolClient.h: Rotate
--                   models rotateConnect, Handlers the callbacks of the client and the farm, Api the
--                   calls of the API server, Timers the three timers, Step all of them as one function
--                   over events
--   Pool.Simulation libpool/testing/SimulateClient.cpp: the client that stands in for a pool
--   Pool.Session    libpool/PoolClient.h: a session with a pool
--   Pool.JsonCpp    the functions of jsoncpp that are called, as parameters, and processError
--   Pool.Lines      the cutting of received data into lines, in libpool/stratum/EthStratumClient.cpp
--   Pool.Stratum    libpool/stratum/EthStratumClient.h, libpool/stratum/EthStratumClient.cpp: State
--                   holds the members, Pleas the queue of times, Sending the queue of messages,
--                   Connecting connect to disconnect_finalize, Timer workloop_timer_elapsed,
--                   Submitting the submissions, Receiving the reading of data; processResponse is
--                   Envelope, Login, Answers, Jobs and Notifications. Nonce, Solutions, Detection,
--                   Order and Deafness hold what follows
--   Pool.Getwork    libpool/getwork/EthGetworkClient.h, libpool/getwork/EthGetworkClient.cpp, and Queue,
--                   the queue of its requests
--   Api             libapi/ApiServer.h, libapi/ApiServer.cpp: Requests holds the state of a connection
--                   and the reading of values, Methods processRequest, Receiving the reading of data;
--                   Access, Locks, ReadOnly and Password hold what they grant
--   Eth.Epoch       libeth/EthashAux.h, libeth/Miner.cpp: the context of an epoch
--   Eth.Batch       what a device is asked to search and what it answers, in libcl/CLMiner.cpp and
--                   libcuda/CUDAMiner.cpp
--   Cl              libcl/CLMiner.h, libcl/CLMiner.cpp: State holds the members and the calls of OpenCL,
--                   Identity the ids of devices, Devices enumDevices and initDevice, Buffers
--                   free_buffers, kick_miner and the pauses, Dag the runs that generate the DAG, Epoch initEpoch, Loop workLoop; Dag.Cover,
--                   Devices.Placed, Epoch.Outcome and Loop.Searched hold what follows
--   Cuda            libcuda/CUDAMiner.h, libcuda/CUDAMiner.cpp: State holds the members and the calls of
--                   CUDA, Devices enumDevices and initDevice, Epoch kick_miner and initEpoch, Search
--                   search, Loop workLoop; Devices.Merged, Search.Submitted, Search.Stops,
--                   Loop.Held and Loop.Epochs hold what follows
--   Cli             etcminer/main.cpp: Options the options and their checks, Settings validateArgs,
--                   Devices the choice of devices, Run execute and main; Settings.Valid, Devices.Choice
--                   and Run.Codes hold what follows
--   Examples        the theorems at concrete inputs
--
-- Loops. The loops of the source run over containers and are recursions on lists. The least number
-- of bits in Farm::setWork, ceil(log2(n)), is searched from 0 with fuel n, which is enough, since
-- n <= 2 ^ n. The digits of a number are written on fuel for the digits of its type: 16 for a
-- uint64_t in hexadecimal, 5 for a port, 10 for 32 bits in decimal. The waiting loops of the
-- worker are steps that may repeat. The loop that generates a DAG is on fuel for its number of
-- items, of which each run generates at least one. The loops of the devices are recursions on the
-- list of what their rounds meet.
--
-- Parameters. Random numbers, clocks, sensor readings, numerals read by the standard library
-- (strtoull, a stream) and the epoch number of a seed (the ethash library) are arguments of the
-- definitions, or members of their environment. So are the answers of OpenCL and of CUDA, the
-- results of a device for a batch, the options as boost has read them, and the construction of a
-- URI for the command line, and the end of doMiner. The functions of jsoncpp are the fields of the
-- record Pool.JsonCpp.JsonCpp over a type of values.
--
-- Not modelled: the ethash and keccak libraries, which are copies of another project's; the device
-- code of libcl/ethash.cl and libcuda/ethash_cuda_miner_kernel.cu; the answers of OpenCL and CUDA;
-- libhwmon, which reads monitoring libraries; the lines of an HTTP response to the getwork client;
-- of the stratum client the set-up of TLS and of sockets; the scheme, user and query of a pool's
-- address in its constructor; of libapi the acceptance of connections and the contents of its
-- statistics and pages; of etcminer/main.cpp the help, the list of devices, the display timer and
-- the signals; in libdev/Worker.cpp the signal that a thread raises after an exception under
-- g_exitOnError, and the throw of what is no exception; the conversions of libdev that go through
-- floating point numbers (getTargetFromDiff, getHashesToTarget, getScaledSize); logging and the
-- terminal, which only write.
pub mod Prelude
pub mod Dev
pub mod Eth
pub mod Cl
pub mod Cuda
pub mod Pool
pub mod Api
pub mod Cli
pub mod Examples
