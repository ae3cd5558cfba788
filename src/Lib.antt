-- ===== src/Lib.antt =====
-- DamMonitoring: the firmware of a dam's sensors and actuators, written in C for Contiki-NG.
--
-- The program. Flow sensors and a water level sensor publish simulated readings over MQTT and take
-- the positions of the gates from the topic `simulation`; a gate controller registers at
-- the collector and then serves CoAP resources for its gate and its alarm. Three motes of a
-- demonstration join what several of these do. The files and what they model, all under Motes/:
--   Common.Urn, Common.Json   lib/common/common.c: `URN`, `get_json_int_field`,
--                             `get_json_bool_field`.
--   SensorSim                 lib/common/sensor-sim.h: the constants, `LINEAR_VAR`, `STEADY_VAR`,
--                             and the three channels (`FLOW`, `MAX_FLOW`, `GATE`).
--   Mqtt                      lib/mqtt-client/mqtt-client.c: `state_machine` as its `if` statements
--                             in order, the events of `mqtt_event`, the leds and their timers.
--                             Engine is what an MQTT engine takes of one client.
--   Process                   the branch of the main processes that calls `state_machine`, the
--                             interface of a sensor, which the firmwares and mote 2 fill, and how
--                             a process drives its client.
--   FlowSensor                firmwares/flow-sensor/flow-sensor.c: the simulation, `build_message`,
--                             `handle_message`, the button and the process, for each channel.
--   WaterLevel                firmwares/water-level-sensor/water-level-sensor.c, likewise.
--   Coap, Gate                lib/resources/res-gate.c: the GET and PUT handlers, the led.
--   Alarm                     lib/resources/res-alarm.c, likewise.
--   Registration              the process that firmwares/gate-controller/gate-controller.c and
--                             demo/mote-1/mote-1.c share: the wait, the registration, the serving.
--   GateController            what the gate controller has of its own: the test of its wait, its
--                             message, its paths; and the gates behind these paths.
--   Demo                      demo/mote-1/mote-1.c, demo/mote-2/mote-2.c, demo/mote-3/mote-3.c.
--   Dam                       the sensors of one dam, which get the same messages on the topic
--                             `simulation`: those of firmwares/, and motes 2 and 3 of demo/.
--   History                   a process as a step for each input, over a list of inputs: what it
--                             keeps, what it emits, where it comes to an undefined step.
--   Clib                      what the code uses of the C library: comparisons, `snprintf` with
--                             `%d` and `%02x`, `atoi` (saturating, with a 32-bit `int`), remainders.
--   Prelude, Checks           shared names and lemmas; the properties at concrete inputs.
--
-- How the state corresponds. The static variables of a file are a record, a handler is a function
-- from that record to the next, and what a handler does to leds and timers is part of the record
-- (a timer is whether it runs). The calls of the MQTT engine are a list, the latest first. A
-- process is a function of one event; `PROCESS_EXIT()` is the field `running`. `none` stands for
-- behaviour that C leaves undefined: a division by zero, an index out of bounds.
--
-- Parameters. Contiki's JSON parser is the record `JsonParser`; the only fact assumed of it is that
-- a token other than the error takes some of the text. The number of clock ticks in a second, the
-- address of the node, the conversion of an `int` to `clock_time_t`, the random numbers and the
-- bytes of uninitialised buffers are arguments. The accessors of the CoAP engine are fields of the
-- request. What a node finds of the network when it wakes, with the text of its address, and how
-- each request to the collector ends are inputs of the registration.
--
-- Bounds and fuel. An `unsigned long` has 32 bits and wraps; the flows and targets are unbounded
-- integers, and their range is proved. The loops of the JSON readers take one more step of fuel than
-- the parser has text left, and each token uses some of it. `format_d` has fuel for the digits.
--
-- Not modelled: logging (with it lib/resources/resource.c), with the evaluation of its arguments
-- taken as switched on (the count of messages is an argument of `LOG_INFO`); how the engine splits
-- one CoAP response into blocks; the border router and its web server, which are Contiki-NG's; the
-- Java application. Overflow of `int` in the reconnection counter and of `strncpy` into a buffer
-- that it fills are not modelled either. A led is a field of what drives it: that the gate
-- controller's registration and its gate light the same led (`LEDS_GREEN`) is not modelled.
pub mod Prelude
pub mod Dam
pub mod History
pub mod Clib
pub mod Common
pub mod SensorSim
pub mod FlowSensor
pub mod Mqtt
pub mod Process
pub mod Coap
pub mod Gate
pub mod Alarm
pub mod WaterLevel
pub mod Registration
pub mod GateController
pub mod Demo
pub mod Checks
