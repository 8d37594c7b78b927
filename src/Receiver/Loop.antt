-- ===== src/Receiver/Loop.antt =====
-- src/sync/receiver.rs, `apply_recipes`: the loop over the frames of a peer. A stream that ends
-- without `Done` is an error of the read. The frames for directories, links, deletes, metadata and
-- signatures are not among those that are modelled.
pub mod Transfer
pub mod Session
pub mod Contained
use cp.Common.{ℕ, Bytes, List, [], ◌∷◌, Option, Bool, true, false}
use cp.Platform.Result.{Result, ok, err}
use cp.Receiver.State.{Host, ReceiverFlags, ApplyState, ApplyOutcome, ◌>>>◌}
use cp.Receiver.Chunks.{handle_file_start, handle_file_chunk, handle_file_end, abort_in_flight}
use cp.Receiver.Applies.{Ack, push_batch, handle_delta_recipe, handle_done}

-- A batch and a recipe stand with what their apply comes to.
pub data ReceivedFrame : Type 0 where
  file_start : ℕ → Bytes → ℕ → ReceivedFrame
  file_chunk : ℕ → Bytes → ReceivedFrame
  file_end : ReceivedFrame
  batch : Result (List ApplyOutcome) → ReceivedFrame
  delta_recipe : Bytes → Option Bytes → Result ApplyOutcome → ReceivedFrame
  peer_error : ReceivedFrame

module _ (host : Host) (flags : ReceiverFlags) where
  pub handle : ReceivedFrame → ApplyState → ApplyState × Result (Unit {0})
  unfolding handle_file_start handle_file_chunk handle_file_end push_batch handle_delta_recipe
  handle (file_start file_id file_path size) state =
      handle_file_start host flags state file_id file_path size
  handle (file_chunk file_id bytes) state = handle_file_chunk host flags state file_id bytes
  handle file_end state = handle_file_end host flags state
  handle (batch task) state = push_batch state task
  handle (delta_recipe file_path basis_path task) state =
      handle_delta_recipe host state file_path basis_path task
  handle peer_error state = (state, err "Peer error")

  -- The frames before `Done`, up to the first error
  pub apply_frames : List ReceivedFrame → ApplyState → ApplyState × Result (Unit {0})
  unfolding handle
  apply_frames [] state = (state, ok tt)
  apply_frames (frame ∷ frames) state = handle frame state >>> λ s. apply_frames frames s

  pub clean_up : ApplyState × Result Ack → ApplyState × Result Ack
  unfolding abort_in_flight
  clean_up (state, err e) = (abort_in_flight host flags state, err e)
  clean_up (state, ok ack) = (state, ok ack)

  -- The end of the stream: `Done`, or a read that fails
  pub end_of_stream : Bool → ApplyState → ApplyState × Result Ack
  unfolding handle_done
  end_of_stream true state = handle_done state
  end_of_stream false state = (state, err "Failed to read")

  -- A session whose stream ends with `Done`, or breaks off behind the frames
  unfoldable pub apply_recipes : List ReceivedFrame → Bool → ApplyState → ApplyState × Result Ack
  unfolding apply_frames end_of_stream clean_up
  apply_recipes frames done state =
      clean_up (apply_frames frames state >>> λ s. end_of_stream done s)
