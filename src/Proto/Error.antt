-- ===== src/Proto/Error.antt =====
-- The errors of internal/proto. The text that `fmt.Errorf("...: %w", err)` puts in front of an
-- error is dropped: `errors.Is` and `errors.As` look through it.
use ggrok.Prelude.{ℕ}

pub data Error : Type 0 where
  -- io.EOF, io.ErrUnexpectedEOF, io.ErrShortWrite, and a failed read or write of the transport.
  eof unexpected_eof short_write read_failed write_failed : Error
  -- Messages that are refused for what they hold.
  invalid_role invalid_mode invalid_kind : ℕ → Error
  no_ports : Error
  payload_too_large : ℕ → Error
  wrong_size : ℕ → ℕ → Error
  bad_encoding : Error
  -- hello.go: one sentinel for each rejection of relay.
  no_such_session mode_mismatch publisher_exists ports_mismatch denied : Error
  unknown_status : ℕ → Error
  -- claim.go, auth.go and crypto.go.
  bad_session_key no_session_key sign_failed publish_claim bad_proof random_failed : Error
  -- frame_conn.go.
  counter_exhausted : Error
  short_frame : ℕ → Error
  bad_frame : ℕ → Error
