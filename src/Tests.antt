-- ===== src/Tests.antt =====
-- Concrete runs of the models, at which the theorems are applied.
mod MemdumpTests
mod CpusTests
mod X2apicTests
mod DeviceTests
mod BootTests
mod BlobTests
mod DetectTests
mod CalibrateTests
mod DriverTests
mod TimerTests
mod ZzzloopTests
mod EilvtTests
mod VectorTests
mod ParamTests
mod SessionTests
