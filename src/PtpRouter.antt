-- ===== src/PtpRouter.antt =====
-- frontend/routers/ptp.py and frontend/routers/config.py: the handlers that read the state and change
-- the configuration, over the files, the reader and the tasks of the request.
pub mod Handlers
pub mod Import
pub mod Export
pub mod Apply
pub mod Requested
pub mod Complete
pub mod Accepted
pub mod Status
pub mod Log
pub mod Roundtrip
pub mod Restarts
pub mod Frame
