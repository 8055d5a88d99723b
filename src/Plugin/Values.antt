-- ===== src/Plugin/Values.antt =====
-- internal/ctxkeys: what the contexts of a message may hold for the plugins that come later.
use smtpd.Prelude.{Bool, Option, List}
use smtpd.Text.{Bytes}

pub data SpfResult : Type 0 where
  pass fail soft_fail neutral temp_error perm_error no_record : SpfResult

-- StoredSPFResult
pub record StoredSpfResult : Type 0 where
  pub result : SpfResult
  pub domain : Bytes

-- a signature, `passed` when its error is nil
pub record Verification : Type 0 where
  pub passed : Bool
  pub domain : Bytes

-- the values of SPFResultKey and DKIMResultsKey
pub record Results : Type 0 where
  pub spf : Option StoredSpfResult
  pub dkim : Option (List Verification)
