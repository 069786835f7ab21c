-- ===== src/Http.antt =====
-- What stands between a request and the services: the guards and the error filter of
-- apps/api/src/common, and the client of the web app. Texts are lists of character codes.
pub mod Guards
pub mod Problems
pub mod Client
