-- ===== src/Session/Moves/Rules.antt =====
-- session.go: how the handlers' building blocks move a session's core.
use mathlib.Core.Path.{subst}
use smtpd.Prelude.{ℕ, ◌≡◌, refl, sym, arith, Bool, true, false, Option, none, some, if◌then◌else◌}
use smtpd.Text.{Bytes}
use smtpd.Smtp.{Error}
use smtpd.Plugin.{Plugin, first_error}
use smtpd.Session.State.{
  Core, Session, Config, Outcome, done, failed, Step, write_response, and_then, set_deadline,
  reject, policy_gate,
}
use smtpd.Session.Moves.{Move}

-- a handler that ran from the core `c` has made one move
pub record To {W : Type 0} (cfg : Config W) (c : Core) (r : Outcome × Session W) : Type 0 where
  pub move : Move cfg c (r.1).core

module _ {W : Type 0} where
  pub core-write_response :
      (n : ℕ) (t : Bytes) (s : Session W) → (write_response n t s).1.core ≡ s.core
  unfolding write_response
  core-write_response n t s = refl

  pub core-set_deadline : (s : Session W) → (set_deadline s).1.core ≡ s.core
  unfolding set_deadline
  core-set_deadline s = refl

module _ {W : Type 0} (cfg : Config W) (c : Core) where
  pub To-if :
      (b : Bool) {x y : Outcome × Session W}
      → (b ≡ true → To cfg c x)
      → (b ≡ false → To cfg c y)
      → To cfg c (if b then x else y)
  To-if true hx hy = hx refl
  To-if false hx hy = hy refl

  pub To-write :
      (code : ℕ) (text : Bytes) (s : Session W)
      → Move cfg c s.core
      → To cfg c (write_response code text s)
  unfolding write_response
  To-write code text s m = record { move = m }

  -- a step that leaves the core alone, and one after it
  pub To-and_then :
      (m k : Step W) (s : Session W)
      → (m s).1.core ≡ s.core
      → Move cfg c s.core
      → ((s' : Session W) → s'.core ≡ s.core → To cfg c (k s'))
      → To cfg c (and_then m k s)
  unfolding and_then
  To-and_then m k s e h hk = outcome (m s).0 (hk (m s).1 e)
    where
      outcome :
          (r : Outcome)
          → To cfg c (k (m s).1)
          → To cfg c (elim r [ done ↦ k (m s).1 | failed ↦ (failed, (m s).1) ])
      outcome done t = t
      outcome failed t = record { move = subst (Move cfg c) (sym e) h }

  core-reject :
      (code : ℕ) (text : Bytes) (e : Error) (s : Session W)
      → (reject cfg code text e s).1.core ≡ s.core
  unfolding reject write_response
  core-reject code text e s = ground arith

  -- a plugin's rejection leaves the core as it was before the loop
  pub To-policy_gate :
      (hook : Plugin W → W → Option Error × W) (code : ℕ) (text : Bytes) (k : Step W)
      (s : Session W)
      → Move cfg c s.core
      → ((w : W) → To cfg c (k (record s { world = w })))
      → To cfg c (policy_gate cfg hook code text k s)
  unfolding policy_gate
  To-policy_gate hook code text k s m h =
      let (e, w) = first_error hook cfg.plugins s.world in verdict e w
    where
      verdict :
          (e : Option Error) (w : W)
          → To cfg c (elim e [
            | some x ↦ reject cfg code text x (record s { world = w })
            | none ↦ k (record s { world = w })
          ])
      verdict none w = h w
      verdict (some x) w = record { move = rw core-reject m }
