-- ===== src/Device.antt =====
-- src/backend/DeviceStream.cpp: the stream of a device, with the kernels that wait for a
-- synchronisation.
pub mod Defs
pub mod Pending
