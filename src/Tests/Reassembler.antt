-- ===== src/Tests/Reassembler.antt =====
-- Runs of the reassembler of meridian-relay/src/daemon/mux.rs, and instances of its theorems.
use mathlib.Core.List.{flatten}
use ius.Base.{◌≡◌, refl, ◌≤◌, none, [], ◌∷◌, ◌++◌, length, arith}
use ius.Base.Words.{Bytes}
use ius.Mux.Frame.{build_mux_frame}
use ius.Mux.Reassembler.{new, feed}
use ius.Mux.Reassembler.Stream.{feed-le-max_buffer, feed-feed, feed_frames}

abbrev small_frame : Bytes
small_frame = 0 ∷ 0 ∷ 0 ∷ 6 ∷ 0 ∷ 0 ∷ 0 ∷ 11 ∷ 1 ∷ 2 ∷ 3 ∷ []

abbrev control_frame : Bytes
control_frame = 0 ∷ 0 ∷ 0 ∷ 1 ∷ 0 ∷ 0 ∷ 0 ∷ 9 ∷ 9 ∷ []

small_frame_built : build_mux_frame 6 none (1 ∷ 2 ∷ 3 ∷ []) ≡ small_frame
unfolding build_mux_frame
small_frame_built = refl

resyncs :
    feed (new 1024) (0xAA ∷ small_frame ++ control_frame)
    ≡ (new 1024, small_frame ∷ control_frame ∷ [])
unfolding feed new
resyncs = refl

feed-le-max_buffer_example :
    (length (feed (new 64) small_frame).0.buffers ≤ 64)
    × ((feed (new 64) small_frame).0.max_buffer ≡ 64)
unfolding new
feed-le-max_buffer_example = feed-le-max_buffer (new 64) small_frame

feed-feed_example : feed (new 1024) ((0 ∷ 0 ∷ 0 ∷ 6 ∷ 0 ∷ []) ++ (0 ∷ 0 ∷ 11 ∷ 1 ∷ 2 ∷ 3 ∷ [])) ≡ (
  (feed (feed (new 1024) (0 ∷ 0 ∷ 0 ∷ 6 ∷ 0 ∷ [])).0 (0 ∷ 0 ∷ 11 ∷ 1 ∷ 2 ∷ 3 ∷ [])).0,
  (feed (new 1024) (0 ∷ 0 ∷ 0 ∷ 6 ∷ 0 ∷ [])).1
      ++ (feed (feed (new 1024) (0 ∷ 0 ∷ 0 ∷ 6 ∷ 0 ∷ [])).0 (0 ∷ 0 ∷ 11 ∷ 1 ∷ 2 ∷ 3 ∷ [])).1,
)
unfolding new
feed-feed_example =
    feed-feed (new 1024) (0 ∷ 0 ∷ 0 ∷ 6 ∷ 0 ∷ []) (0 ∷ 0 ∷ 11 ∷ 1 ∷ 2 ∷ 3 ∷ []) (omega arith)

feed_frames_example :
    feed (new 1024) (flatten (small_frame ∷ control_frame ∷ []) ++ (0 ∷ 0 ∷ [])) ≡ (
      (feed (new 1024) (0 ∷ 0 ∷ [])).0,
      (small_frame ∷ control_frame ∷ []) ++ (feed (new 1024) (0 ∷ 0 ∷ [])).1,
    )
feed_frames_example =
    feed_frames 1024 (small_frame ∷ control_frame ∷ []) (0 ∷ 0 ∷ []) (omega arith) (omega arith)
