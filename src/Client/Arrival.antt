-- ===== src/Client/Arrival.antt =====
-- A record that arrives in a session, in `receive_session` of core/src/detail/client_impl.cpp.
use py_net_ft.Common.{ℕ, ◌≡◌, ◌∙◌, ap, refl, Bool, false}
use py_net_ft.Exception.{ok}
use py_net_ft.Double.{Double}
use py_net_ft.Time.{checked_deadline}
use py_net_ft.Protocol.{RawRecord}
use py_net_ft.Protocol.Wire.{IsInRange, record_bytes, decode_record-record_bytes}
use py_net_ft.Client.State.{Impl}
use py_net_ft.Client.Record.{handle_record}
use py_net_ft.Client.Session.{Round, round, handle_decoded, after_record, timed_record}
use py_net_ft.Client.Storm.{Brings, round-Brings}

module _ {F : Type 0} ⦃d : Double F⦄ where
  -- A pass of the loop that comes before the deadline, with no stop asked for and no call of another thread
  -- before the handling, and to which the transport brings the 36 bytes of a record, first resets the count of
  -- malformed datagrams in a row. Then it handles that very record, with the reading of the clock that is
  -- taken after the receive as its time and with whatever its callback does, and the deadline is moved to a
  -- whole receive timeout from that reading.
  pub round-record_bytes :
      (s : Impl F) (deadline next : ℕ) (valid : Bool) (r : Round) (raw : RawRecord)
      → s.stopping ≡ false
      → Brings F s.transport deadline r (record_bytes raw)
      → IsInRange raw
      → checked_deadline r.received_at s.config.receive_timeout ≡ ok next
      → round s deadline valid r
        ≡ after_record
            (handle_record
              (record s { consecutive_malformed = 0 })
              raw
              r.received_at
              r.in_callback
              r.callback_result)
            next
  round-record_bytes s deadline next valid r raw n b w e =
      round-Brings s deadline valid r (record_bytes raw) n b refl
      ∙ ap (handle_decoded s deadline valid r) (decode_record-record_bytes raw w)
      ∙ ap (timed_record (record s { consecutive_malformed = 0 }) raw r) e
