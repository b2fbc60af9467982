-- ===== src/Bindings/NativeClient/Callback.antt =====
-- The lambda that `NativeClient::start` of bindings/python/native_client.cpp hands to the core, as the callback
-- of `handle_record` of core/src/detail/client_impl.cpp; and readers of the queue that it fills.
use py_net_ft.Common.{ℕ, ◌&&◌, Option, none, some, List, [], ◌∷◌, if◌then◌else◌}
use py_net_ft.Exception.{Result, ok, throws}
use py_net_ft.Double.{Double}
use py_net_ft.Protocol.{RawRecord}
use py_net_ft.Types.{Sample}
use py_net_ft.Client.State.{Impl}
use py_net_ft.Client.Command.{Call, interlude}
use py_net_ft.Client.Record.{
  Accounted, returns, account, handle_record, is_finite_sample, make_sample,
}
use py_net_ft.Bindings.SampleQueue.{SampleQueue, ReadResult, push, read_woken}
use py_net_ft.Bindings.NativeClient.{NativeClient}

-- What happens to a running client: its worker handles a record, and the callback meets the listed calls
-- of the core; a reader takes a sample; or calls are made while the worker holds no lock.
pub data Activity : Type 0 where
  arrives : RawRecord → ℕ → List Call → Activity
  takes : Activity
  meanwhile : List Call → Activity

module _ {F : Type 0} where
  abbrev if_called : Option ℕ → Sample F → Option (Sample F)
  if_called none sample = none
  if_called (some callback) sample = some sample

  abbrev pub push_argument : SampleQueue (Sample F) → Option (Sample F) → SampleQueue (Sample F)
  push_argument q none = q
  push_argument q (some sample) = push q sample

module _ {F : Type 0} ⦃d : Double F⦄ where
  abbrev argument_of : RawRecord → ℕ → Impl F × Result (Accounted F) → Option (Sample F)
  argument_of r received_at (s, throws e) = none
  argument_of r received_at (s, ok a) =
      let sample = make_sample a.configuration r received_at in
      if a.deliver && is_finite_sample sample then if_called a.client.callback sample else none

  -- The sample that `handle_record` calls the callback with, if it calls it.
  unfoldable pub callback_argument : Impl F → RawRecord → ℕ → Option (Sample F)
  callback_argument s r received_at = argument_of r received_at (account s r received_at)

  -- The push does not throw, so the callback returns.
  unfoldable pub receive_record : NativeClient F → RawRecord → ℕ → List Call → NativeClient F
  unfolding callback_argument
  receive_record n r received_at calls = record n {
    queue = push_argument n.queue (callback_argument n.client r received_at);
    client = (handle_record n.client r received_at calls returns).0;
  }

  -- The client at the end, and what the readers got.
  unfoldable pub operate :
      NativeClient F → List Activity → NativeClient F × List (ReadResult (Sample F))
  unfolding receive_record
  operate n [] = (n, [])
  operate n (arrives r received_at calls ∷ es) = operate (receive_record n r received_at calls) es
  operate n (takes ∷ es) =
      let (q, result) = read_woken n.queue n.queue.close_generation in
      let (end, rest) = operate (record n { queue = q }) es in (end, result ∷ rest)
  operate n (meanwhile calls ∷ es) = operate (record n { client = interlude n.client calls }) es
