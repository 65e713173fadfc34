-- ===== src/Pipe/Again.antt =====
-- What an interrupted `pipe_write` (fs/pipe.c) writes a second time.
use telos.Prelude.{List}
use telos.Pipe.{Pipe}
