-- ===== src/Examples/Frames.antt =====
-- One frame from one end of an EncryptedConn to the other, and a failure on either side.
use ggrok.Prelude.{
  ℕ, ◌≡◌, ◌≤◌, refl, true, false, List, [], ◌∷◌, ◌++◌, none, some, length, replicate, arith,
}
use ggrok.Prelude.Bytes.{put_be, get_be}
use ggrok.Proto.Error.{counter_exhausted, short_frame}
use ggrok.Proto.Io.{write_full, read_full}
use ggrok.Proto.Frames.{
  EncryptedConn, wrote, write_failed, got, read_failed, write, write_loop, write_frame, frame_bytes,
  nonce, read, read_loop, read_frame, read_body, take_plain,
}
use ggrok.Proto.Frames.Codec.{Matched}
use ggrok.Proto.Frames.Nonce.{nonce-injective}
use ggrok.Proto.Frames.Sticky.{write-failed_stays}
use ggrok.Proto.Frames.RoundTrip.{write-receive, Arrives}
use ggrok.Examples.Toy.{toy, toy-Lawful, wire}

abbrev prefix : List ℕ
prefix = replicate 16 7

abbrev text : List ℕ
text = 1 ∷ 2 ∷ 3 ∷ []

abbrev frame : List ℕ
frame = prefix ++ (0 ∷ 19 ∷ (text ++ replicate 16 0))

abbrev writer : EncryptedConn
writer = record {
  conn = wire [];
  write_error = none;
  write_key = [];
  write_seq = 0;
  write_prefix = prefix;
  prefix_sent = false;
  read_error = none;
  read_key = [];
  read_seq = 0;
  read_prefix = [];
  prefix_seen = false;
  plain = [];
}

abbrev reader : EncryptedConn
reader = record writer { conn = wire (frame ++ 5 ∷ []) }

abbrev writer' : EncryptedConn
writer' = record writer {
  conn = record { incoming = []; broken = false; outgoing = frame; room = 963; silent = false };
  write_seq = 1;
  prefix_sent = true;
}

writer-Matched : Matched writer reader
writer-Matched = record {
  key = refl;
  seq = refl;
  seen = refl;
  prefix = λ e. absurd (ground arith);
  length_prefix = refl;
}

writer_writes : write toy text writer ≡ wrote 3 writer'
unfolding write write_loop write_frame frame_bytes nonce write_full put_be
writer_writes = refl

write-receive_example : (3 ≡ length text) × Arrives toy writer' reader text (5 ∷ [])
write-receive_example =
    write-receive toy toy-Lawful text (5 ∷ []) writer reader {n = 3} {w' = writer'} writer-Matched
      refl writer_writes refl

abbrev fourth : ℕ
fourth = 4

nonce-injective_example : (prefix ≡ prefix) × (fourth ≡ fourth)
nonce-injective_example =
    nonce-injective prefix prefix fourth fourth refl refl (omega arith) (omega arith) refl

-- A writer whose counter has run out.
abbrev spent : EncryptedConn
spent = record writer { write_seq = 18446744073709551615 }

abbrev spent' : EncryptedConn
spent' = record spent { write_error = some counter_exhausted }

spent_writes : write toy text spent ≡ write_failed 0 counter_exhausted spent'
unfolding write write_loop write_frame
spent_writes = refl

write-failed_stays_example :
    (0 ≤ 3) × (write toy (9 ∷ []) spent' ≡ write_failed 0 counter_exhausted spent')
write-failed_stays_example =
    write-failed_stays toy text (9 ∷ []) spent {n = 0} {e = counter_exhausted} {c' = spent'}
      spent_writes

-- A reader whose peer sent a frame that is too short.
abbrev cheated : EncryptedConn
cheated = record writer { conn = wire (prefix ++ 0 ∷ 4 ∷ 1 ∷ []) }

abbrev cheated' : EncryptedConn
cheated' = record cheated {
  conn = wire (1 ∷ []);
  read_prefix = prefix;
  prefix_seen = true;
  read_error = some (short_frame 4);
}

cheated_reads : read toy 8 cheated ≡ read_failed (short_frame 4) cheated'
unfolding read read_loop read_frame read_body read_full get_be
cheated_reads = refl

abbrev reader' : EncryptedConn
reader' = record reader {
  conn = wire (5 ∷ []);
  read_seq = 1;
  read_prefix = prefix;
  prefix_seen = true;
  plain = 3 ∷ [];
}

reader_reads : read toy 2 reader ≡ got (1 ∷ 2 ∷ []) reader'
unfolding read read_loop read_frame read_body read_full get_be take_plain
reader_reads = refl
