-- ===== src/Http.antt =====
-- smartac_http.c: connecting to an AC server, and one HTTP exchange with it.
pub mod Get
pub mod Network
pub mod Connect
