-- ===== src/Session/Overflow.antt =====
-- Packages that are longer than the buffers of uist-game/NetworkServerSession.cpp.
use footscreen.Session.{Session}
