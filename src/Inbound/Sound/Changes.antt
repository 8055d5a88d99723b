-- ===== src/Inbound/Sound/Changes.antt =====
-- Changes of a conversation between two commands: of the world, of the slots, of the lines to come.
use smtpd.Prelude.{ℕ, suc, ◌≤◌, List, length, arith}
use smtpd.Text.{Bytes}
use smtpd.Inbound.State.{Receiver, Session}
use smtpd.Inbound.Data.{release}
use smtpd.Inbound.Sound.{Keeps}

module _ {W : Type 0} (srv : Receiver W) {n k : ℕ} where
  pub with_world :
      (w : W) (s : Session W) → Keeps srv n k s → Keeps srv n k (record s { world = w })
  with_world w s h = record {
    sound = record {
      balance = h.sound.balance;
      held = h.sound.held;
      recipients = h.sound.recipients;
      valid = h.sound.valid;
      stored = h.sound.stored;
      acknowledged = h.sound.acknowledged;
    };
    begun = h.begun;
    left = h.left;
  }

  pub release-Keeps : (s : Session W) → Keeps srv (suc n) k s → Keeps srv n k (release srv s)
  unfolding release
  release-Keeps s h = record {
    sound = record {
      balance = h.sound.balance;
      held = omega (arith, h.sound.held);
      recipients = h.sound.recipients;
      valid = h.sound.valid;
      stored = h.sound.stored;
      acknowledged = h.sound.acknowledged;
    };
    begun = h.begun;
    left = h.left;
  }

  pub take-Keeps :
      (s : Session W) → Keeps srv n k s → Keeps srv (suc n) k (record s { held = suc s.held })
  take-Keeps s h = record {
    sound = record {
      balance = h.sound.balance;
      held = omega (arith, h.sound.held);
      recipients = h.sound.recipients;
      valid = h.sound.valid;
      stored = h.sound.stored;
      acknowledged = h.sound.acknowledged;
    };
    begun = h.begun;
    left = h.left;
  }

  pub with_input :
      (ls : List Bytes) (s : Session W)
      → length ls ≤ length s.conn.input
      → Keeps srv n k s
      → Keeps srv n k (record s { conn = record s.conn { input = ls } })
  with_input ls s l h = record {
    sound = record {
      balance = h.sound.balance;
      held = h.sound.held;
      recipients = h.sound.recipients;
      valid = h.sound.valid;
      stored = h.sound.stored;
      acknowledged = h.sound.acknowledged;
    };
    begun = h.begun;
    left = omega (arith, l, h.left);
  }
