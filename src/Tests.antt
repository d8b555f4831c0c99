-- ===== src/Tests.antt =====
-- Concrete inputs at which the theorems apply.
mod Concrete
mod Phones
mod DncSample
mod TollFreeSample
mod YoumailSample
mod GeoSample
mod FtcSample
mod F404Sample
mod F606Sample
mod LergSample
mod DnoSample
mod Web
mod Calls
mod Commands
mod Pages
mod Dumps
mod Documents
mod Tools
mod Passports
mod Logs
mod Datagrams
mod Requests
mod Worlds
