-- ===== src/MongooseDrv.antt =====
-- The modules of mongoose_drv/: the parameters over HTTP, from the server's side and the client's.
pub mod Text
pub mod HttpServer
pub mod ParametersApi
pub mod HttpParametersClient
pub mod Sample
