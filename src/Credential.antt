-- ===== src/Credential.antt =====
-- internal/domain/credential/credential.go: an encrypted credential.
use many_router.Base.{ℕ, List, Text, Uuid}
use many_router.Base.Int.{ℤ}

pub data Purpose : Type 0 where
  new_api_admin supplier_api_key : Purpose
  other_purpose : Text → Purpose

pub record Record : Type 0 where
  pub id : Uuid
  pub purpose : Purpose
  pub ciphertext : List ℕ
  pub nonce : List ℕ
  pub key_version : ℤ  -- int32
