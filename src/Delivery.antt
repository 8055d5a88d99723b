-- ===== src/Delivery.antt =====
-- internal/server/server.go: the worker of internal/processor with the deliverer of pkg/outbound.
mod Silent
mod Tests
use smtpd.Prelude.{Option, none, some, List, Bool, ◌||◌, if◌then◌else◌}
use smtpd.Text.{Bytes}
use smtpd.Message.{Message}
use smtpd.Outbound.Errors.{Failure}
use smtpd.Outbound.Deliver.{Deliverer, deliver}
use smtpd.Outbound.Deliver
use smtpd.Retry.Worker.{Environment, Delivered, success, interrupted, refusal}
use smtpd.Retry.Worker

-- what the worker makes of the error that Deliver returns
unfoldable pub as_delivered : Option Failure → Delivered
as_delivered none = success
as_delivered (some e) = if e.deadline_exceeded || e.canceled then interrupted else refusal e.text

-- the queue, the clock and the contexts of `outer`, and the deliverer
unfoldable pub with_deliverer :
    {W C : Type 0}
    → Worker.Environment W
    → Deliver.Environment W C
    → Deliverer
    → (List (Bytes × List Bytes) → List (Bytes × List Bytes))
    → (List (W → W) → W → W)
    → Worker.Environment W
unfolding as_delivered deliver
with_deliverer outer env d order together = record outer {
  deliver = λ m s. let (e, s') = deliver env d order together (some m) s in (as_delivered e, s');
}
