-- ===== src/Delivery/Silent.antt =====
-- internal/processor/processor.go and pkg/outbound/deliverer.go: what becomes of a failed delivery.
use smtpd.Prelude.{◌≡◌, List, [], ◌∷◌}
use smtpd.Message.{Message}
use smtpd.Outbound.Deliver
use smtpd.Retry.Worker.{Fate, delivered, requeued, requeue_failed, permanent, exhausted, Worker}
use smtpd.Retry.Worker

-- a message that was counted as delivered, or put back as it was
abbrev pub IsUntouched : Message → Fate → Type 0
IsUntouched m (delivered m') = m' ≡ m
IsUntouched m (requeued m') = m' ≡ m
IsUntouched m (requeue_failed m') = m' ≡ m
IsUntouched m (permanent m' text) = ⊥
IsUntouched m (exhausted m' text) = ⊥

abbrev pub AllUntouched : List Message → List Fate → Type 0
AllUntouched [] [] = Unit {0}
AllUntouched [] (f ∷ fs) = ⊥
AllUntouched (m ∷ ms) [] = ⊥
AllUntouched (m ∷ ms) (f ∷ fs) = IsUntouched m f × AllUntouched ms fs
