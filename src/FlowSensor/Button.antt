-- ===== src/FlowSensor/Button.antt =====
-- The button of the inflow sensor in Motes/firmwares/flow-sensor/flow-sensor.c.
