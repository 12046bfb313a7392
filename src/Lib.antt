-- ===== src/Lib.antt =====
-- The earthquake alarm: a server that collects the measurements of sensors and warns alarms, and the
-- Arduino devices on both sides.
--
-- A device connects over TCP (src/utils/network/TcpComm.cpp, ServerTCP.cpp), and the server gives it a
-- client object with a thread (src/utils/network/ClientTCP.cpp). Both ends speak packets of sixteen
-- bytes (src/utils/communication/PacketComm.h) under a block cipher (src/utils/security/Cryptography.cpp).
-- The server identifies the device, gives it a new identification if it has none, keeps a register
-- in a file, and reserves a slot for its measurements (src/server/ServerSensors.cpp, ListSensors.cpp).
--
-- Base: names, lists, Boolean tests and integers that the modules share.
-- Security: src/utils/security/Cryptography.cpp. `encrypt` and `decrypt` by clauses over the rounds
--   (`encrypt_rounds`, `encrypt_round`, `encrypt_words`); the number of rounds is the source's.
-- Packet: src/utils/communication/PacketComm.h. `packing`, `unpacking` and the packet's bytes.
-- Queue: src/utils/Queue.h. A call is one step, since it holds the mutex; waiting is `none`.
-- Sensors: src/server/ListSensors.cpp. `append_measure` is `none` for a write outside of the array.
-- Tcp: src/utils/network/TcpComm.cpp, SocketClientTcp. The loops run over the answers of the system.
-- Client: src/utils/network/ClientTCP.cpp. `send_message`, `recv_message`, and `run` over the passes
--   that its environment offers, for any `process_packet`.
-- Server: src/utils/network/ServerTCP.cpp. The clients are a store, a pointer an index of it;
--   Server/Session: `generateSID` of src/utils/ClientID.h.
-- Registry: what src/server/ServerSensors.cpp and src/server/ServerAlarm.cpp do alike with their registers.
--   `search_id` has one round more than there are registers, which is enough.
-- Handshake: the exchange of `addClient`, which both servers share. `FloatOps` stands for the
--   conversions between int and float, which are the machine's.
-- SensorServer: src/server/ServerSensors.cpp and `updateListSensor` of src/server/ResponseSensors.cpp;
--   SensorServer/History: threads as an order of steps.
-- Response: src/server/ResponseSensors.cpp, src/server/ResponseAlarm.cpp and
--   src/utils/communication/ResponsePacket.cpp.
-- Alarm: src/server/RequestAlarm.cpp, the thread that warns the alarms; the arithmetic of `float` is the
--   record `FloatOps` of this module.
-- AlarmServer: src/server/ServerAlarm.cpp.
-- Tcp/Peek, Tcp/Listen: the form of `receive` that does not wait, and SocketServerTCP.
-- Channel: the two ends of a connection, with the stream between them; Channel/Fifo has the abstract queue.
-- Server/Accept: the loop of `run` of src/utils/network/ServerTCP.cpp over any `addClient`; SensorServer/Serving and
--   AlarmServer/Stopping: the loop of the two servers.
-- Device/Connecting, Device/Alarming: `connectToServer` and `loop` of arduino/AlarmDevice/AlarmDevice.ino; the three
--   sketches have the same `connectToServer` and `ackServer`.
-- Device/Init: how the sketches start the accelerometer. Device/Sensing, Device/Legacy: the detection
--   and the message of arduino/TerremotoDevice/TerremotoDeviceUpdated.ino and of the older
--   arduino/TerremotoDevice/TerremotoDevice.ino.
-- Report: a measurement from the sensor to the server's list, and an alert from the server to the alarm; Report/Alert
--   joins them; Report/Session: the thread of a sensor's client with `process_packet`.
-- Clock: src/utils/platform/SystemCall.cpp. Task, Runnable: src/utils/concurrency/Concurrency.h and Runnable.h.
-- Udp: src/utils/network/UdpComm.cpp. Log: src/utils/logger/Logger.cpp. Entry: src/main.cpp.
-- Exception: src/utils/Exception.h and the classes below it. Server/Running: src/utils/network/ServerTCP.cpp from the constructor
--   to the destructor, with the whole of `run`.
-- Client/Ending: the end of `run` of src/utils/network/ClientTCP.cpp; Report/Leaving: with the server's callback.
-- Alarm/Watch: `run` of src/server/RequestAlarm.cpp; AlarmServer/LocalIds: the local identifications of the alarms.
-- Queue/Unordered: the queue as a bag, Base/Bag; SensorServer/Durable: the registers over a restart.
-- Packet/Image: the type of packets and that of their bytes. Security/Device: arduino/libraries/ServerComm/Cryptography.cpp,
--   for any width of `unsigned long`.
-- Device/Life: `setup` of the sensor's sketches with all that follows it; Device/Speaking, Device/Utterance and Device/Booted: what
--   they send in that life.
-- Device/Returning, SensorServer/Remembered and Report/Remembering: a device that comes back with its identification.
-- SensorServer/Threads: what other threads do to the server of the sensors, also during `addClient`, with the file that
--   the server of the alarms writes too and the request index that the whole program shares.
-- Device: arduino/libraries/ServerComm/ServerComm.cpp and `ackServer` of arduino/AlarmDevice/AlarmDevice.ino and
--   arduino/TerremotoDevice/TerremotoDeviceUpdated.ino; Device/Renewal and Device/ZeroId: the device against the
--   server;
--   Device/Accelerometer: `AccelerometerRead` of arduino/TerremotoDevice/TerremotoDeviceUpdated.ino.
--
-- An `int` is an integer where the source only counts with it, a `uint32_t` a natural number below
-- 2 ^ 32 with its wrap-around, a `float` or a `double` its bits. A `long` of the server has 64 bits, so that the
-- difference of two times does not wrap around. The request index is one for the program: where a server stands alone its
-- index counts what it numbers itself, and SensorServer/Threads lets others change it. The system, the C library, the
-- threads, the Ethernet library and the bus of the accelerometer are their answers, which are
-- arguments. Not modelled: the timer library MsTimer2, which is a copy of another project's, and calls
-- that only write, sleep or ask the system once, an interrupt of the timer within a
-- pass of `loop`, and a std::thread that the system refuses.
pub mod Base
pub mod Security
pub mod Packet
pub mod Queue
pub mod Sensors
pub mod Tcp
pub mod Client
pub mod Channel
pub mod Runnable
pub mod Task
pub mod Server
pub mod Registry
pub mod Handshake
pub mod SensorServer
pub mod Response
pub mod Clock
pub mod Alarm
pub mod AlarmServer
pub mod Device
pub mod Report
pub mod Udp
pub mod Log
pub mod Entry
pub mod Exception
